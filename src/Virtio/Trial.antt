-- ===== src/Virtio/Trial.antt =====
-- test_crypto.c of the guest: data are encrypted and decrypted through the crypto device, and
-- compared.
pub mod Arrays
pub mod Verdicts
mod Tests
use c_development_on_linux.Base.{
  ℕ, ◌+◌, Bool, true, false, List, [], ◌∷◌, ◌++◌, Option, none, some, ◌==◌, if◌then◌else◌, take,
  drop, length, replicate,
}
use c_development_on_linux.Base.Texts.{same_text}
use c_development_on_linux.Virtio.Wire.{SessionOp, CryptOp, Element}
use c_development_on_linux.Virtio.Host.{Cryptodev, Call}
use c_development_on_linux.Virtio.Guest.{
  Ioctl, asks_session, ends_session, asks_crypt, Written, session_written, bytes_written, Done,
  Outcome, finished, ◌>>=◌, crypto_chrdev_ioctl,
}

-- `DATA_SIZE`, `BLOCK_SIZE`, `KEY_SIZE`
abbrev pub data_size : ℕ
data_size = 16384

abbrev pub block_size : ℕ
block_size = 16

abbrev pub key_size : ℕ
key_size = 24

-- `data`, a structure of arrays one behind the other
pub record Data : Type 0 where
  pub input : List ℕ
  pub encrypted : List ℕ
  pub decrypted : List ℕ
  pub iv : List ℕ
  pub key : List ℕ

-- the addresses of the arrays behind the first, for that of the structure
abbrev pub encrypted_at : ℕ → ℕ
encrypted_at base = base + 16384

abbrev pub decrypted_at : ℕ → ℕ
decrypted_at base = base + 32768

abbrev pub iv_at : ℕ → ℕ
iv_at base = base + 49152

abbrev pub key_at : ℕ → ℕ
key_at base = base + 49168

-- the bytes from the start of an array
unfoldable pub memory_of : ℕ → Data → ℕ → ℕ → List ℕ
memory_of base data' a n =
    if a == base
    then take n data'.input
    else if a == encrypted_at base
    then take n data'.encrypted
    else if a == decrypted_at base
    then take n data'.decrypted
    else if a == iv_at base
    then take n data'.iv
    else if a == key_at base
    then take n data'.key
    else []

-- the variables of `test_crypto`, and the device of the host
pub record Trial (H : Type 0) : Type 0 where
  pub data' : Data
  pub sess : SessionOp
  pub host : H

abbrev over : List ℕ → List ℕ → List ℕ
over bs old = bs ++ drop (length bs) old

-- what a call of `ioctl` writes to the program
unfoldable pub write_back : {H : Type 0} → ℕ → Option Written → Trial H → Trial H
write_back base none t = t
write_back base (some (session_written s)) t = record t { sess = s }
write_back base (some (bytes_written a bs)) t =
    let d = t.data' in
    if a == encrypted_at base
    then record t { data' = record d { encrypted = over bs d.encrypted } }
    else if a == decrypted_at base
    then record t { data' = record d { decrypted = over bs d.decrypted } }
    else t

-- `sess` after `memset`, with a cipher, which is CRYPTO_AES_CBC, and a key
abbrev pub first_session : ℕ → ℕ → SessionOp
first_session base cipher' = record {
  cipher = cipher';
  mac = 0;
  keylen = key_size;
  key = key_at base;
  mackeylen = 0;
  mackey = 0;
  ses = 0;
}

-- `cryp` for an operation: COP_ENCRYPT is 0 and COP_DECRYPT is 1.
abbrev pub cryp_of : {H : Type 0} → ℕ → ℕ → ℕ → ℕ → Trial H → CryptOp
cryp_of base op' src' dst' t = record {
  ses = t.sess.ses;
  op = op';
  flags = 0;
  len = data_size;
  src = src';
  dst = dst';
  mac = 0;
  iv = iv_at base;
}

-- what `test_crypto` returns, and what it leaves
pub record Verdict (H : Type 0) : Type 0 where
  pub status : ℕ
  pub left : Trial H

abbrev pub verdict : {H : Type 0} → ℕ → Trial H → Outcome (Verdict H)
verdict n t = finished (record { status = n; left = t })

-- `fill_urandom_buff`, for what open and read of /dev/urandom bring
unfoldable pub fill_urandom_buff : {H : Type 0} → List ℕ → Trial H → Trial H
fill_urandom_buff bs t = record t {
  data' = record (t.data') { input = over (take data_size bs) t.data'.input };
}

-- the driver, and in this order: the descriptor, the address of the structure, and the cipher
module _ {H : Type 0} (passes : Element → Bool) (call_of : ℕ → Call) (dev : Cryptodev H)
    (host_fd base cipher' : ℕ) where
  -- `if (ioctl(cfd, ...)) return 1`
  unfoldable pub call : Ioctl → Trial H → (Trial H → Outcome (Verdict H)) → Outcome (Verdict H)
  call io t k =
      crypto_chrdev_ioctl passes call_of dev host_fd (memory_of base t.data') true 0 io t.host
      >>= λ d.
          let u = write_back base d.to_user (record t { host = d.host }) in
          if d.ret == 0 then k u else verdict 1 u

  -- from the comparison on
  unfoldable pub verify : Trial H → Outcome (Verdict H)
  verify t =
      if same_text (take data_size t.data'.input) (take data_size t.data'.decrypted)
      then call (ends_session t.sess.ses) t (verdict 0)
      else verdict 1 t

  -- the two operations
  unfoldable pub encrypts_and_decrypts : Trial H → Outcome (Verdict H)
  encrypts_and_decrypts t =
      call (asks_crypt (cryp_of base 0 base (encrypted_at base) t)) t
        (λ t. call (asks_crypt (cryp_of base 1 (encrypted_at base) (decrypted_at base) t)) t verify)

  -- `test_crypto`, for what /dev/urandom brings, if it can be read
  unfoldable pub test_crypto : Option (List ℕ) → Trial H → Outcome (Verdict H)
  test_crypto none t = verdict 1 t
  test_crypto (some bs) t =
      let t = record (fill_urandom_buff bs t) { sess = first_session base cipher' } in
      call (asks_session t.sess) t encrypts_and_decrypts

  -- `main`, for whether the device can be opened and closed
  unfoldable pub main : Bool → Bool → Option (List ℕ) → Trial H → Outcome (Verdict H)
  unfolding test_crypto
  main opens closes urandom t =
      if opens
      then (test_crypto urandom t >>= λ v.
          if v.status == 0
          then (if closes then finished v else verdict 1 v.left)
          else verdict 1 v.left)
      else verdict 1 t
