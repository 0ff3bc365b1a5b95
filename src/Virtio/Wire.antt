-- ===== src/Virtio/Wire.antt =====
-- What the guest and the host of the crypto device exchange: an element of the queue, which is a list
-- of buffers for the host to read and one for it to write.
use c_development_on_linux.Base.{on_some, ℕ, suc, zero, ◌%◌, ◌^◌, List, [], ◌∷◌, Option, none, some}

-- `struct session_op`; addresses are numbers
pub record SessionOp : Type 0 where
  pub cipher : ℕ
  pub mac : ℕ
  pub keylen : ℕ
  pub key : ℕ
  pub mackeylen : ℕ
  pub mackey : ℕ
  pub ses : ℕ

-- `struct crypt_op`
pub record CryptOp : Type 0 where
  pub ses : ℕ
  pub op : ℕ
  pub flags : ℕ
  pub len : ℕ
  pub src : ℕ
  pub dst : ℕ
  pub mac : ℕ
  pub iv : ℕ

-- the commands of cryptodev.h
pub data Command : Type 0 where
  ciocgsession ciocfsession cioccrypt : Command
  other_command : ℕ → Command

-- the two texts that the sides send each other for the log, and an empty one
pub data Message : Type 0 where
  hello_host : Command → Message
  welcome no_message : Message

-- What a buffer holds: an `int`, a variable that is a pointer, and so on.
pub data Buffer : Type 0 where
  number : ℕ → Buffer
  pointer : ℕ → Buffer
  command : Command → Buffer
  message : Message → Buffer
  bytes : List ℕ → Buffer
  session : SessionOp → Buffer
  crypt_op : CryptOp → Buffer

-- `sg_init_one`
pub record Sg : Type 0 where
  pub buffer : Buffer
  pub size : ℕ

pub record Element : Type 0 where
  pub out_sg : List Sg
  pub in_sg : List Sg

abbrev pub sg : Buffer → ℕ → Sg
sg b n = record { buffer = b; size = n }

-- A place outside of the list is not written.
unfoldable pub put_at : ℕ → Buffer → List Sg → Option (List Sg)
put_at i b [] = none
put_at zero b (s ∷ ss) = some (record s { buffer = b } ∷ ss)
put_at (suc i) b (s ∷ ss) = on_some (λ rest. s ∷ rest) (put_at i b ss)

-- the `int` at the start of a buffer, in which a pointer has its lower half
abbrev pub as_int : Buffer → Option ℕ
as_int (number n) = some n
as_int (pointer p) = some (p % 2 ^ 32)
as_int _ = none

abbrev pub as_command : Buffer → Option Command
as_command (command c) = some c
as_command _ = none

abbrev pub as_message : Buffer → Option Message
as_message (message m) = some m
as_message _ = none

abbrev pub as_bytes : Buffer → Option (List ℕ)
as_bytes (bytes bs) = some bs
as_bytes _ = none

abbrev pub as_session : Buffer → Option SessionOp
as_session (session s) = some s
as_session _ = none

abbrev pub as_crypt : Buffer → Option CryptOp
as_crypt (crypt_op c) = some c
as_crypt _ = none
