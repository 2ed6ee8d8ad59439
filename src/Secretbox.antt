-- ===== src/Secretbox.antt =====
-- internal/secretbox/secretbox.go. AES-GCM, SHA-256, base64 and the random bytes are parameters.
use rosemary_virsree.Prelude.{ℕ, false, ◌≡◌, refl, ap, ltb, Option, some, [], ◌∷◌, ◌++◌, arith}
use rosemary_virsree.Prelude.Text.{Str}
use rosemary_virsree.Prelude.Sorting.{limit}
use rosemary_virsree.Prelude.Results.{Result, ok, ◌>>=◌, ◌>>◌, fail_if, scan, invalid_secret}
use rosemary_virsree.Service.Uploads.{length}
use rosemary_virsree.Service.Storage.Endpoints.{drop}

-- Box: the cipher of one key, whose `close` and `open_sealed` take a nonce of `nonce_size` bytes.
pub record Box : Type 0 where
  pub nonce_size : ℕ
  pub close : Str → Str → Str
  pub open_sealed : Str → Str → Option Str

pub record Base64 : Type 0 where
  pub encode : Str → Str
  pub decode : Str → Option Str

unfoldable pub new_box : (Str → Str) → (Str → Box) → Str → Box
new_box sha256 gcm master = gcm (sha256 master)

module _ (base64 : Base64) (b : Box) where
  -- Seal, with its nonce.
  unfoldable pub seal : Str → Str → Str
  seal nonce v = base64.encode (nonce ++ b.close nonce v)

  unfoldable pub open_box : Str → Result Str
  open_box v = do
    raw ← scan (base64.decode v) invalid_secret
    fail_if (ltb (length raw) b.nonce_size) invalid_secret
    scan (b.open_sealed (limit b.nonce_size raw) (drop b.nonce_size raw)) invalid_secret

  unfoldable pub random : Str → Str → Str
  random prefix bytes = prefix ++ base64.encode bytes

  unfoldable pub hash : (Str → Str) → Str → Str
  hash sha256 v = base64.encode (sha256 v)

  limit-append : (s t : Str) → limit (length s) (s ++ t) ≡ s
  unfolding limit
  limit-append [] [] = refl
  limit-append [] (c ∷ t) = refl
  limit-append (c ∷ s) t = ap (λ r. c ∷ r) (limit-append s t)

  drop-append : (s t : Str) → drop (length s) (s ++ t) ≡ t
  unfolding drop
  drop-append [] t = refl
  drop-append (c ∷ s) t = drop-append s t

  length-append-ge : (s t : Str) → ltb (length (s ++ t)) (length s) ≡ false
  length-append-ge [] t = ground arith
  length-append-ge (c ∷ s) t = ground (arith, length-append-ge s t)

  -- Where base64 and the cipher give back what they are given, Open gives back what Seal has sealed
  -- with a nonce of the cipher's size.
  pub open_box-seal :
      ((s : Str) → base64.decode (base64.encode s) ≡ some s)
      → ((nonce v : Str) → b.open_sealed nonce (b.close nonce v) ≡ some v)
      → (nonce v : Str) → length nonce ≡ b.nonce_size
      → open_box (seal nonce v) ≡ ok v
  unfolding open_box seal
  open_box-seal codec cipher nonce v size =
      let sealed = b.close nonce v in
      rw (
        codec (nonce ++ sealed),
        ← size,
        length-append-ge nonce sealed,
        limit-append nonce sealed,
        drop-append nonce sealed,
        cipher nonce v,
      )
