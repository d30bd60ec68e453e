-- ===== src/Feature/Whisper.antt =====
-- frontend/fbank.h: `Fbank::WhisperNorm`, whose maximum is taken over the windows of one call.
use wenet_android.Prelude.{List, [], ◌∷◌, map, if◌then◌else◌}
use wenet_android.Prelude.Int.{pos}
use wenet_android.Prelude.Float.{Float}
use wenet_android.Feature.{Fbank}

module _ (f : Float) where
  -- `max_mel_engery` behind the energies of one window.
  unfoldable pub max_of : f.F → List f.F → f.F
  max_of max_mel_energy [] = max_mel_energy
  max_of max_mel_energy (e ∷ energies) =
      max_of (if f.lt max_mel_energy e then e else max_mel_energy) energies

  -- `least` is the smallest positive float.
  unfoldable pub max_of_all : f.F → List (List f.F) → f.F
  max_of_all least [] = least
  max_of_all least (feat ∷ feats) = max_of_all (max_of least feat) feats

  unfoldable pub norm_energy : f.F → f.F → f.F
  norm_energy max_mel_energy energy =
      let floor = f.sub max_mel_energy (f.of_int (pos 8)) in
      let high = if f.lt energy floor then floor else energy in
      f.div (f.add high (f.of_int (pos 4))) (f.of_int (pos 4))

  unfoldable pub make_fbank : {S : Type 0} → f.F → (List S → List f.F) → Fbank S (List f.F)
  make_fbank least energies = record {
    energies = energies;
    whisper_norm = λ feats feat. map (norm_energy (max_of_all least feats)) feat;
  }
