-- ===== src/Virtio/Trial/Arrays.antt =====
-- The arrays of test_crypto.c: what is read from them and written to them.
use c_development_on_linux.Base.{
  ℕ, ◌+◌, ◌≤◌, List, [], ◌∷◌, ◌++◌, some, ◌≡◌, refl, sym, ap, ◌∙◌, arith, length, drop, take_all,
  length-drop, append-nil, ==_refl, ==_of_ne,
}
use c_development_on_linux.Virtio.Guest.{bytes_written}
use c_development_on_linux.Virtio.Trial.{
  Data, Trial, memory_of, encrypted_at, decrypted_at, iv_at, key_at, write_back,
}

-- The arrays are full.
pub record HasSizes (d : Data) : Type 0 where
  pub input : length d.input ≡ 16384
  pub encrypted : length d.encrypted ≡ 16384
  pub decrypted : length d.decrypted ≡ 16384
  pub iv : length d.iv ≡ 16
  pub key : length d.key ≡ 24

drop_all : (n : ℕ) (xs : List ℕ) → length xs ≤ n → drop n xs ≡ []
drop_all n xs h = none_left (drop n xs) (omega (arith, length-drop n xs))
  where
    none_left : (ys : List ℕ) → length ys ≡ 0 → ys ≡ []
    none_left [] e = refl
    none_left (y ∷ ys) e = absurd (omega (arith, e))

-- A full array is written over as a whole.
pub over_full : (bs old : List ℕ) → length bs ≡ length old → bs ++ drop (length bs) old ≡ bs
over_full bs old e = ap (λ l. bs ++ l) (drop_all (length bs) old (omega (arith, e))) ∙ append-nil bs

module _ (base : ℕ) where
  pub memory_input : (d : Data) → HasSizes d → memory_of base d base 16384 ≡ d.input
  unfolding memory_of
  memory_input d v = rw (==_refl base) (take_all 16384 d.input (omega (arith, v.input)))

  pub memory_encrypted :
      (d : Data) → HasSizes d → memory_of base d (encrypted_at base) 16384 ≡ d.encrypted
  unfolding memory_of
  memory_encrypted d v =
      rw (==_of_ne (base + 16384) base (λ e. omega (arith, e)), ==_refl (base + 16384))
        (take_all 16384 d.encrypted (omega (arith, v.encrypted)))

  pub memory_iv : (d : Data) → HasSizes d → memory_of base d (iv_at base) 16 ≡ d.iv
  unfolding memory_of
  memory_iv d v =
      rw
        (
          ==_of_ne (base + 49152) base (λ e. omega (arith, e)),
          ==_of_ne (base + 49152) (base + 16384) (λ e. omega (arith, e)),
          ==_of_ne (base + 49152) (base + 32768) (λ e. omega (arith, e)),
          ==_refl (base + 49152),
        )
        (take_all 16 d.iv (omega (arith, v.iv)))

  pub memory_key : (d : Data) → HasSizes d → memory_of base d (key_at base) 24 ≡ d.key
  unfolding memory_of
  memory_key d v =
      rw
        (
          ==_of_ne (base + 49168) base (λ e. omega (arith, e)),
          ==_of_ne (base + 49168) (base + 16384) (λ e. omega (arith, e)),
          ==_of_ne (base + 49168) (base + 32768) (λ e. omega (arith, e)),
          ==_of_ne (base + 49168) (base + 49152) (λ e. omega (arith, e)),
          ==_refl (base + 49168),
        )
        (take_all 24 d.key (omega (arith, v.key)))

module _ {H : Type 0} (base : ℕ) where
  -- The encryption fills the second array, the decryption the third.
  pub write_encrypted :
      (bs : List ℕ) (t : Trial H)
      → length bs ≡ 16384
      → HasSizes t.data'
      → write_back base (some (bytes_written (encrypted_at base) bs)) t
        ≡ record t { data' = record (t.data') { encrypted = bs } }
  unfolding write_back
  write_encrypted bs t full v =
      rw (==_refl (base + 16384), over_full bs t.data'.encrypted (full ∙ sym v.encrypted)) refl

  pub write_decrypted :
      (bs : List ℕ) (t : Trial H)
      → length bs ≡ 16384
      → HasSizes t.data'
      → write_back base (some (bytes_written (decrypted_at base) bs)) t
        ≡ record t { data' = record (t.data') { decrypted = bs } }
  unfolding write_back
  write_decrypted bs t full v =
      rw
        (
          ==_of_ne (base + 32768) (base + 16384) (λ e. omega (arith, e)),
          ==_refl (base + 32768),
          over_full bs t.data'.decrypted (full ∙ sym v.decrypted),
        )
        refl
