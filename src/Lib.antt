-- ===== src/Lib.antt =====
-- A model of the speech recognition runtime of this repository (wenet/runtime), with proofs.
--
-- The runtime turns a wave into text: the feature pipeline cuts the samples into windows and
-- queues one feature per window; the decoder reads the features in chunks, has a neural model
-- score them, searches the scores for the best unit sequences, and asks the endpoint detector
-- whether the speaker has stopped; the post processor cleans the text; the Android bridge hands
-- text and time stamps to the application.
--
-- Which file models what:
--   Prelude: names, lists over the native numbers, integers, and `Prelude.Float`, the operations
--     on floating-point numbers that the code uses, as a parameter, with an instance on the
--     integers in which the tests run.
--   Text: wenet/runtime/core/utils/string.cc, on bytes. `Text.Utf8` cuts a text into characters,
--     `Text.Trim`, `Text.Parts` and `Text.Blank` are the trimming, splitting and squeezing.
--   PostProcessor: wenet/runtime/core/post_processor/post_processor.cc.
--   Queue: wenet/runtime/core/utils/blocking_queue.h. A call that has to wait is `none`, or gives
--     back what it has not done yet; `Queue.Transfer` lets two calls interleave, and `Queue.Waiting`
--     has the two condition variables.
--   Feature: wenet/runtime/core/frontend/feature_pipeline.cc and the framing of fbank.h, with
--     its normalisations. The mel energies of one window are a parameter.
--   Endpoint: wenet/runtime/core/decoder/ctc_endpoint.cc.
--   TopK: wenet/runtime/core/utils/utils.cc.
--   PrefixScore, PrefixBeam: wenet/runtime/core/decoder/ctc_prefix_beam_search.{h,cc}, the scores
--     of one prefix and the search. The search calls `TopK` for each frame and the context graph
--     through a record of its operation. An unordered map is the list of its entries, and the
--     order in which it is walked is a parameter that is only asked to meet every entry.
--   Model: wenet/runtime/core/decoder/asr_model.cc, the chunks and the feature cache.
--   Decoder: wenet/runtime/core/decoder/asr_decoder.{h,cc}. It reads the features of `Feature`, calls
--     the encoder through `Model`, the search through the record `Search` and the detector of
--     `Endpoint`.
--   Wfst: wenet/runtime/core/decoder/ctc_wfst_beam_search.cc, the frames that are decoded and the
--     units of an alignment; the lattice decoder is a parameter.
--   Bridge: wenet/runtime/android/app/src/main/cpp/wenet.cc. The globals are one record; a call of
--     the application, or one round of decode_thread_func, is one step of `Bridge.Runs`, and the
--     steps come in any order. The decoder is a record of the operations that the bridge calls.
--   Wav: wenet/runtime/core/frontend/wav.h. A file is a byte string, and the C library's `fread`,
--     `fwrite` and `fseek` are written out; `stale` is what a variable holds before it is read into.
--   Context: wenet/runtime/core/decoder/context_graph.cc, how a context is split into units; the
--     symbol table is a parameter. `Context.Graph` is the step of the automaton, which is a record of
--     what openfst reads of it; the fuel is one more than a bound on the ranks of its states.
--   Api: wenet/runtime/core/api/wenet_api.cc, the recognizer of the C API: it feeds the pipeline of
--     `Feature` and runs the decoder of `Decoder` until it waits or ends.
--   Fft: wenet/runtime/core/frontend/fft.cc, the bit reversal and the transform, with the floats as a
--     parameter; the loops that go up in steps run on fuel, one more than the length.
--   LabelChecker: wenet/runtime/core/bin/label_checker_main.cc, the machines that a transcript is
--     checked with. openfst's transducers and symbol tables are records of operations, with what
--     openfst documents of them as hypotheses; arcs carry their weights, which are not added up.
--   Websocket: wenet/runtime/core/websocket/websocket_server.cc, the decoding thread of a
--     connection and the replies that it sends, while the writes succeed. `Websocket.Connection` is
--     the loop over the messages of a client, which are parsed already (a text that the JSON library
--     throws on is a message of its own), and what is done behind the loop.
--
-- Machine integers are the native numbers where the code never goes below zero, and integers
-- elsewhere. A failed `CHECK`, an exception and an index out of range are `none`. Loops that are
-- not structural run on fuel, the length of the text or of the queue and one more at most, and
-- the theorems about them show that it does not run out.
--
-- Not modelled: the neural models (libtorch and ONNX Runtime), the vendored kaldi and openfst
-- code, the rest of the network servers, command-line parsing, and the Java application.
pub mod Prelude
pub mod TopK
pub mod PrefixScore
pub mod PrefixBeam
pub mod Text
pub mod PostProcessor
pub mod Queue
pub mod Feature
pub mod Endpoint
pub mod Model
pub mod Decoder
pub mod Wfst
pub mod Bridge
pub mod Websocket
pub mod Wav
pub mod Context
pub mod Api
pub mod LabelChecker
pub mod Fft
