-- ===== src/Files/Sums.antt =====
-- What the checksums of two files tell.
use datasaver.Base.{Str, ok, ◌≡◌, ◌↔◌, arith}
use datasaver.Base.Hex.{AllBytes, hex_encode_injective}
use datasaver.Files.{calculate_checksum, hash_token}

module _ (sha256 : Str → Str) (sums : (text : Str) → AllBytes (sha256 text)) where
  -- Two files that can be read have the same checksum exactly if their SHA-256 sums are equal, and
  -- two tokens the same hash.
  pub sums_iff :
      (s t : Str)
      → (calculate_checksum sha256 (ok (ok s)) ≡ calculate_checksum sha256 (ok (ok t))
          ↔ sha256 s ≡ sha256 t)
        × (hash_token sha256 s ≡ hash_token sha256 t ↔ sha256 s ≡ sha256 t)
  unfolding calculate_checksum hash_token
  sums_iff s t =
      let same = hex_encode_injective (sha256 s) (sha256 t) (sums s) (sums t) in
      ((λ e. same (ground (arith, e)), λ e. rw e), (same, λ e. rw e))
