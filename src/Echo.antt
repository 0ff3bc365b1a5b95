-- ===== src/Echo.antt =====
-- socket-client.c and socket-server.c of Virtio/virtio-cryptodev-helpcode/sockets: the server sends
-- back in capitals what the client says. What the system calls return is an argument; each `read`,
-- with -1 as `none`, comes with what the calls of `write` return for the answer to it.
pub mod Sayings
mod Tests
use c_development_on_linux.Base.{
  ℕ, Bool, List, [], ◌∷◌, ◌++◌, Option, none, some, map, ◌==◌, if◌then◌else◌, length,
}
use c_development_on_linux.Base.Texts.{to_upper}
use c_development_on_linux.Chat.{Writing, complete, failed, waits, insist_write}

abbrev pub Reads : Type 0
Reads = List (Option (List ℕ) × List (Option ℕ))

-- `toupper_buf`
unfoldable pub toupper_buf : List ℕ → List ℕ
toupper_buf buf = map to_upper buf

-- A connection is closed or waits for a call to return.
pub data Served : Type 0 where
  closed waiting : Served

abbrev pub served : Writing → Served × List ℕ → List ℕ → Served × List ℕ
served complete rest sent = rest
served failed rest sent = (closed, sent)
served waits rest sent = (waiting, sent)

-- the loop of the server for one peer, from what was sent to it before
unfoldable pub serve : Reads → List ℕ → Served × List ℕ
serve [] sent = (waiting, sent)
serve ((none, writes) ∷ more) sent = (closed, sent)
serve ((some [], writes) ∷ more) sent = (closed, sent)
serve ((some (b ∷ bs), writes) ∷ more) sent =
    let (end, out) = insist_write writes (toupper_buf (b ∷ bs)) in
    served end (serve more (sent ++ out)) (sent ++ out)

-- The client ends with a status, or waits; `bytes` is what it has written of the answer, and `fd` the
-- descriptor that it goes to.
pub record Ended : Type 0 where
  pub status : Option ℕ
  pub fd : ℕ
  pub bytes : List ℕ

-- the first argument of `insist_write` for the answer: not standard output, which is 1
abbrev answer_fd : ℕ
answer_fd = 0

abbrev pub ended : ℕ → List ℕ → Ended
ended n bs = record { status = some n; fd = answer_fd; bytes = bs }

-- a call does not return
abbrev pub hung : List ℕ → Ended
hung bs = record { status = none; fd = answer_fd; bytes = bs }

abbrev pub heard : Writing → Ended → List ℕ → Ended
heard complete rest written = rest
heard failed rest written = ended 1 written
heard waits rest written = hung written

-- the loop of the client that writes the answer to descriptor 0, from what it has written before
unfoldable pub hear : Reads → List ℕ → Ended
hear [] written = hung written
hear ((none, writes) ∷ more) written = ended 1 written
hear ((some [], writes) ∷ more) written = ended 0 written
hear ((some (b ∷ bs), writes) ∷ more) written =
    let (end, out) = insist_write writes (b ∷ bs) in
    heard end (hear more (written ++ out)) (written ++ out)

-- `HELLO_THERE`
abbrev pub hello_there : List ℕ
hello_there = 72 ∷ 101 ∷ 108 ∷ 108 ∷ 111 ∷ 32 ∷ 116 ∷ 104 ∷ 101 ∷ 114 ∷ 101 ∷ 33 ∷ []

-- whether the calls before the loop of the client work, and what `write` returns for the greeting
pub record Calls : Type 0 where
  pub makes_socket : Bool
  pub finds_host : Bool
  pub connects : Bool
  pub writes : List (Option ℕ)
  pub shuts_down : Bool

-- what the client does once the greeting is written, or is not
abbrev pub said : Writing → Calls → Reads → Ended
said complete calls reads = if calls.shuts_down then hear reads [] else ended 1 []
said failed calls reads = ended 1 []
said waits calls reads = hung []

-- `main` of the client, for its arguments: what it sent, and what it wrote of the answer
unfoldable pub client : List (List ℕ) → Calls → Reads → List ℕ × Ended
client (program ∷ host ∷ port ∷ []) calls reads =
    if calls.makes_socket
    then (if calls.finds_host
        then (if calls.connects
            then (let (end, out) = insist_write calls.writes hello_there in
                (out, said end calls reads))
            else ([], ended 1 []))
        else ([], ended 1 []))
    else ([], ended 1 [])
client args calls reads = ([], ended 1 [])

abbrev then_peers : Served × List ℕ → Option ℕ × List (List ℕ) → Option ℕ × List (List ℕ)
then_peers (closed, sent) (status, others) = (status, sent ∷ others)
then_peers (waiting, sent) rest = (none, sent ∷ [])

-- the loop over the peers that `accept` brings, -1 as `none`: the status it ends with, unless it
-- waits, and what was sent to each
unfoldable pub serve_peers : List (Option Reads) → Option ℕ × List (List ℕ)
serve_peers [] = (none, [])
serve_peers (none ∷ peers) = (some 1, [])
serve_peers (some reads ∷ peers) = then_peers (serve reads []) (serve_peers peers)

-- `main` of the server, for whether `socket`, `bind` and `listen` work
unfoldable pub server : Bool → Bool → Bool → List (Option Reads) → Option ℕ × List (List ℕ)
unfolding serve_peers
server makes_socket binds listens peers =
    if makes_socket
    then (if binds then (if listens then serve_peers peers else (some 1, [])) else (some 1, []))
    else (some 1, [])
