-- ===== src/Chat.antt =====
-- The chat over sockets: socket-client.c, socket-server.c and crypto-test.h of Chat/sockets. The
-- operations of the crypto device on a block of 256 bytes are a parameter, and what the calls of the
-- system return is an argument of each step.
pub mod Lines
pub mod Talk
pub mod Sessions
pub mod Device
mod Tests
use c_development_on_linux.Base.{
  ℕ, suc, zero, ◌+◌, ◌-◌, ◌==◌, ◌&&◌, Bool, true, false, List, [], ◌∷◌, ◌++◌, Option, none, some,
  on_some, length, take, drop, replicate, if◌then◌else◌,
}
use c_development_on_linux.Base.Streams.{fgets, strip}

-- `DATA_SIZE`, and the size of `buf`
abbrev pub data_size : ℕ
data_size = 256

-- The string in a buffer; without a zero it runs out of the buffer.
unfoldable pub c_string : List ℕ → Option (List ℕ)
c_string [] = none
c_string (b ∷ bs) = let rest = c_string bs in if b == 0 then some [] else on_some (λ s. b ∷ s) rest

-- bytes stored at the start of a buffer
unfoldable pub overwrite : List ℕ → List ℕ → List ℕ
overwrite bs buf = bs ++ drop (length bs) buf

-- The results of `getLine`, with the buffer and the input after it
pub data LineRead : Type 0 where
  ok no_input too_long : List ℕ → List ℕ → LineRead
  outside : LineRead

-- up to the end of the line, and if there was anything
unfoldable pub flush_line : List ℕ → Bool × List ℕ
flush_line [] = (false, [])
flush_line (b ∷ bs) =
    let (extra, rest) = flush_line bs in if b == 10 then (false, bs) else (true, rest)

abbrev pub ends_line : List ℕ → Bool
ends_line [] = false
ends_line (b ∷ []) = b == 10
ends_line (b ∷ c ∷ cs) = ends_line (c ∷ cs)

abbrev pub too_long_or_ok : Bool × List ℕ → List ℕ → LineRead
too_long_or_ok (true, rest) buf = too_long buf rest
too_long_or_ok (false, rest) buf = ok buf rest

-- the string that `fgets` stored; an empty one has no last byte
abbrev pub line_kept : Option (List ℕ) → List ℕ → List ℕ → LineRead
line_kept none buf rest = outside
line_kept (some []) buf rest = outside
line_kept (some (c ∷ cs)) buf rest =
    if ends_line (c ∷ cs)
    then ok (overwrite (strip (c ∷ cs) ++ 0 ∷ []) buf) rest
    else too_long_or_ok (flush_line rest) buf

abbrev pub line_got : List ℕ × List ℕ → List ℕ → LineRead
line_got ([], rest) buf = no_input buf rest
line_got (b ∷ bs, rest) buf =
    let filled = overwrite ((b ∷ bs) ++ 0 ∷ []) buf in line_kept (c_string filled) filled rest

unfoldable pub get_line : ℕ → List ℕ → List ℕ → LineRead
get_line sz input buf = line_got (fgets (sz - 1) input) buf

pub data Writing : Type 0 where
  complete failed waits : Writing

-- `insist_write`, for what each `write` returns, -1 as `none`: the bytes that were taken
unfoldable pub insist_write : List (Option ℕ) → List ℕ → Writing × List ℕ
insist_write writes [] = (complete, [])
insist_write [] (b ∷ bs) = (waits, [])
insist_write (none ∷ writes) (b ∷ bs) = (failed, [])
insist_write (some ret ∷ writes) (b ∷ bs) =
    let (end, out) = insist_write writes (drop ret (b ∷ bs)) in (end, take ret (b ∷ bs) ++ out)

-- the session of the crypto device: what `ioctl` makes of a block, or -1 as `none`
pub record Cipher : Type 0 where
  pub encrypt_block : List ℕ → Option (List ℕ)
  pub decrypt_block : List ℕ → Option (List ℕ)

-- `encrypt` and `decrypt` leave the buffer as it was if `ioctl` fails, and their result is not used.
abbrev pub or_same : Option (List ℕ) → List ℕ → List ℕ
or_same none buf = buf
or_same (some block) buf = block

unfoldable pub encrypt : Cipher → List ℕ → Option (List ℕ)
encrypt cipher buf =
    on_some (λ s. or_same (cipher.encrypt_block (s ++ replicate (data_size - length s) 0)) buf)
      (c_string buf)

unfoldable pub decrypt : Cipher → List ℕ → Option (List ℕ)
decrypt cipher buf = on_some (λ s. or_same (cipher.decrypt_block buf) buf) (c_string buf)

pub data Shown : Type 0 where
  remote_says i_said : List ℕ → Shown

-- a side of the chat: its buffer, its input, the bytes sent and what was printed
pub record Peer : Type 0 where
  pub buf : List ℕ
  pub input : List ℕ
  pub sent : List ℕ
  pub shown : List Shown

-- A round of a side goes on, leaves the connection, ends the program, waits in a call, or makes an
-- access outside of a buffer.
pub data Round : Type 0 where
  goes_on left exits : Peer → Round
  blocked strays : Round

abbrev pub show : Shown → Peer → Peer
show w p = record p { shown = p.shown ++ w ∷ [] }

-- what `getLine` leaves; its result is not used
abbrev pub line_of : LineRead → Option (List ℕ × List ℕ)
line_of (ok buf rest) = some (buf, rest)
line_of (no_input buf rest) = some (buf, rest)
line_of (too_long buf rest) = some (buf, rest)
line_of outside = none

abbrev pub or_strays : {A : Type 0} → Option A → (A → Round) → Round
or_strays none k = strays
or_strays (some a) k = k a

-- the end of the sending of a block, for what a failed write does
abbrev pub sent_all : (Peer → Round) → List ℕ → Peer → Writing × List ℕ → Round
sent_all on_failure original p (complete, out) =
    goes_on (show (i_said original) (record p { sent = p.sent ++ out }))
sent_all on_failure original p (failed, out) = on_failure (record p { sent = p.sent ++ out })
sent_all on_failure original p (waits, out) = blocked

-- A line of the user is read, encrypted and sent.
unfoldable pub say : (Peer → Round) → Cipher → List (Option ℕ) → Peer → Round
say on_failure cipher writes p = or_strays (line_of (get_line data_size p.input p.buf)) (λ r.
    or_strays (c_string r.0) (λ original. or_strays (encrypt cipher r.0) (λ block.
      sent_all on_failure original (record p { buf = block; input = r.1 })
        (insist_write writes (take data_size block)))))

-- the end of the writing to standard output, for what it leaves when all is written
abbrev pub printed_all : Peer → Peer → Writing × List ℕ → Round
printed_all after p (complete, out) = goes_on (show (remote_says out) after)
printed_all after p (failed, out) = exits (show (remote_says out) p)
printed_all after p (waits, out) = blocked

-- What the client and the server do with what is in the buffer: they decrypt it and write the text to
-- standard output, for what `write` returns there.
abbrev pub hear_client : Cipher → List (Option ℕ) → List ℕ → Peer → Round
hear_client cipher prints buf' p = or_strays (decrypt cipher buf') (λ plain.
    or_strays (c_string plain)
      (λ text. let u = record p { buf = plain } in printed_all u u (insist_write prints text)))

abbrev pub hear_server : Cipher → List (Option ℕ) → List ℕ → Peer → Round
hear_server cipher prints buf' p = or_strays (decrypt cipher buf') (λ plain.
    or_strays (c_string plain) (λ text.
      printed_all (record p { buf = replicate data_size 0 }) (record p { buf = plain })
        (insist_write prints text)))

-- What `select` finds: the socket, with what `read` brings, at most 256 bytes and -1 as `none`, and what
-- `write` to standard output returns then; or a line of the user, with what `write` returns.
pub data Ready : Type 0 where
  socket_ready : Option (List ℕ) → List (Option ℕ) → Ready
  line_ready : List (Option ℕ) → Ready

unfoldable pub client_round : Cipher → Ready → Peer → Round
client_round cipher (socket_ready none prints) p = exits p
client_round cipher (socket_ready (some []) prints) p = left p
client_round cipher (socket_ready (some (b ∷ bs)) prints) p =
    hear_client cipher prints (overwrite (b ∷ bs) p.buf) p
client_round cipher (line_ready writes) p = say exits cipher writes p

-- After a failed `read` the server goes on with the buffer as it is.
unfoldable pub server_round : Cipher → Ready → Peer → Round
server_round cipher (socket_ready none prints) p = hear_server cipher prints p.buf p
server_round cipher (socket_ready (some []) prints) p = left p
server_round cipher (socket_ready (some (b ∷ bs)) prints) p =
    hear_server cipher prints (overwrite (b ∷ bs) p.buf) p
server_round cipher (line_ready writes) p = say left cipher writes p

-- the rounds of one connection
abbrev pub then_rounds : Round → (Peer → Round) → Round
then_rounds (goes_on p) k = k p
then_rounds (left p) k = left p
then_rounds (exits p) k = exits p
then_rounds blocked k = blocked
then_rounds strays k = strays

unfoldable pub rounds : (Ready → Peer → Round) → List Ready → Peer → Round
rounds step [] p = goes_on p
rounds step (r ∷ rs) p = then_rounds (step r p) (rounds step rs)

-- the crypto device behind the descriptor that the server opened: whether it is open, with a session
pub record CryptoFile : Type 0 where
  pub is_open : Bool
  pub has_session : Bool

-- Without its session, or closed, the device refuses every operation.
abbrev pub no_cipher : Cipher
no_cipher = record { encrypt_block = λ s. none; decrypt_block = λ s. none }

abbrev pub in_session : CryptoFile → Bool
in_session f = f.is_open && f.has_session

abbrev pub cipher_of : Cipher → CryptoFile → Cipher
cipher_of cipher f = if in_session f then cipher else no_cipher

-- `finishcrypto`, for whether the device ends the session when CIOCFSESSION asks for it. If the ioctl
-- fails the function returns before `close`; `close` gives the descriptor back whatever it returns.
unfoldable pub finishcrypto : Bool → CryptoFile → CryptoFile
finishcrypto ends f =
    if ends && in_session f then record { is_open = false; has_session = false } else f

abbrev pub then_connection : Round → (Peer → Round) → Round
then_connection (left p) k = k p
then_connection (goes_on p) k = goes_on p
then_connection (exits p) k = exits p
then_connection blocked k = blocked
then_connection strays k = strays

-- A connection of the server: what it finds ready, and whether the session can be ended behind it
pub record Connection : Type 0 where
  pub found : List Ready
  pub ends : Bool

-- The server's connections, one behind the other. `finishcrypto` stands in the loop over them,
-- `init_crypto` in front of it.
unfoldable pub server : Cipher → CryptoFile → List Connection → Peer → Round
unfolding finishcrypto
server cipher f [] p = goes_on p
server cipher f (c ∷ cs) p =
    then_connection (rounds (server_round (cipher_of cipher f)) c.found p)
      (server cipher (finishcrypto c.ends f) cs)
