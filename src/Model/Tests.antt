-- ===== src/Model/Tests.antt =====
-- Two chunks of two steps, and the theorem at them.
use wenet_android.Prelude.{ℕ, suc, ◌≡◌, refl, List, [], ◌∷◌, ◌++◌, length, drop, arith}
use wenet_android.Prelude.Int.{pos, negsuc}
use wenet_android.Model.{AsrModel, forward_encoder, num_frames_for_chunk, cache_feature}
use wenet_android.Model.Chunks.{windows_overlap, window}

-- An encoder that hands on what it gets and counts its calls.
abbrev echo : List ℕ → ℕ → List ℕ × ℕ
echo feats calls = (feats, suc calls)

abbrev small : AsrModel ℕ ℕ
small = record {
  right_context = 2;
  subsampling_rate = 2;
  chunk_size = pos 2;
  num_left_chunks = negsuc 0;
  cached_feature = [];
  encoder = 0;
}

abbrev first_chunk : List ℕ
first_chunk = 1 ∷ 2 ∷ 3 ∷ 4 ∷ 5 ∷ []

abbrev second_chunk : List ℕ
second_chunk = 6 ∷ 7 ∷ 8 ∷ 9 ∷ []

sees_both :
    (forward_encoder echo second_chunk (forward_encoder echo first_chunk small).1).0
    ≡ 5 ∷ second_chunk
unfolding forward_encoder cache_feature
sees_both = refl

windows_overlap_example :
    let m' = (forward_encoder echo first_chunk small).1 in
    (5 ≡ window echo small)
    × ((forward_encoder echo first_chunk small).0 ≡ first_chunk)
    × (m'.cached_feature ≡ drop 4 first_chunk)
    × (length (m'.cached_feature ++ second_chunk) ≡ window echo small)
    × ((forward_encoder echo second_chunk m').0 ≡ m'.cached_feature ++ second_chunk)
unfolding num_frames_for_chunk
windows_overlap_example =
    windows_overlap echo small first_chunk second_chunk (omega arith, omega arith) refl refl refl
