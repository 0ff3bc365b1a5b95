-- ===== src/Echo/Sayings.antt =====
-- What the client gets back from the server.
use c_development_on_linux.Base.{
  ℕ, true, List, [], ◌∷◌, ◌++◌, Option, some, map, ◌≡◌, refl, sym, ap, ◌∙◌, arith, length,
  append_assoc, append-nil,
}
use c_development_on_linux.Base.Texts.{to_upper}
use c_development_on_linux.Chat.{complete, insist_write}
use c_development_on_linux.Chat.Talk.{Works, insist_write_all}
use c_development_on_linux.Echo.{
  Reads, toupper_buf, closed, serve, hear, ended, hello_there, Calls, client,
}

-- A part of a stream that a read brings, and the calls of `write` for the answer, which work.
pub record Part : Type 0 where
  pub first : ℕ
  pub others : List ℕ
  pub writes : List (Option ℕ)
  pub works : Works (length (first ∷ others)) writes

-- the bytes of a stream, and its reads up to its end
abbrev pub stream : List Part → List ℕ
stream [] = []
stream (p ∷ ps) = (p.first ∷ p.others) ++ stream ps

abbrev pub reads_of : List Part → Reads
reads_of [] = (some [], []) ∷ []
reads_of (p ∷ ps) = (some (p.first ∷ p.others), p.writes) ∷ reads_of ps

length-map : (f : ℕ → ℕ) (xs : List ℕ) → length (map f xs) ≡ length xs
length-map f [] = refl
length-map f (x ∷ xs) = omega (arith, length-map f xs)

map-append : (f : ℕ → ℕ) (xs ys : List ℕ) → map f (xs ++ ys) ≡ map f xs ++ map f ys
map-append f [] ys = refl
map-append f (x ∷ xs) ys = ap (λ l. f x ∷ l) (map-append f xs ys)

-- The server sends back the whole stream in capitals.
serve_lem :
    (ps : List Part) (sent : List ℕ)
    → serve (reads_of ps) sent ≡ (closed, sent ++ map to_upper (stream ps))
unfolding serve toupper_buf
serve_lem [] sent = ap (λ l. (closed, l)) (sym (append-nil sent))
serve_lem (p ∷ ps) sent =
    let bs = p.first ∷ p.others in
    let out = map to_upper bs in
    let goes : insist_write p.writes out ≡ (complete, out) =
      insist_write_all p.writes out (rw (length-map to_upper bs) p.works) in
    rw goes (
      serve_lem ps (sent ++ out)
      ∙ ap (λ l. (closed, l))
          (append_assoc sent out (map to_upper (stream ps))
            ∙ ap (λ l. sent ++ l) (sym (map-append to_upper bs (stream ps)))))

-- The client writes the whole stream.
hear_lem :
    (ps : List Part) (written : List ℕ)
    → hear (reads_of ps) written ≡ ended 0 (written ++ stream ps)
unfolding hear
hear_lem [] written = ap (ended 0) (sym (append-nil written))
hear_lem (p ∷ ps) written =
    let bs = p.first ∷ p.others in
    rw (insist_write_all p.writes bs p.works)
      (hear_lem ps (written ++ bs) ∙ ap (ended 0) (append_assoc written bs (stream ps)))

-- All calls of the client work.
pub record AllWork (calls : Calls) : Type 0 where
  pub makes_socket : calls.makes_socket ≡ true
  pub finds_host : calls.finds_host ≡ true
  pub connects : calls.connects ≡ true
  pub writes : Works 12 calls.writes
  pub shuts_down : calls.shuts_down ≡ true

-- The client and the server together, when their calls work: however the greeting of the client is
-- cut by the reads of the server, and what the server sends by those of the client, and however many
-- bytes each write takes, the client sends the greeting, writes it in capitals to descriptor 0, the
-- standard input, and ends with status 0, and the server closes the connection.
pub client-serve :
    (program host port : List ℕ) (calls : Calls) (to_server to_client : List Part)
    → AllWork calls
    → stream to_server ≡ (client (program ∷ host ∷ port ∷ []) calls (reads_of to_client)).0
    → stream to_client ≡ (serve (reads_of to_server) []).1
    → (client (program ∷ host ∷ port ∷ []) calls (reads_of to_client)
        ≡ (hello_there, record { status = some 0; fd = 0; bytes = toupper_buf hello_there }))
      × (serve (reads_of to_server) [] ≡ (closed, toupper_buf hello_there))
unfolding client toupper_buf
client-serve program host port calls to_server to_client v asked answered =
    let goes : insist_write calls.writes hello_there ≡ (complete, hello_there) =
      insist_write_all calls.writes hello_there v.writes in
    let said : client (program ∷ host ∷ port ∷ []) calls (reads_of to_client)
        ≡ (hello_there, hear (reads_of to_client) []) =
      rw (v.makes_socket, v.finds_host, v.connects, goes, v.shuts_down) refl in
    let greeting : stream to_server ≡ hello_there = asked ∙ ap (λ r. r.0) said in
    let served : serve (reads_of to_server) [] ≡ (closed, map to_upper hello_there) =
      serve_lem to_server [] ∙ ap (λ l. (closed, map to_upper l)) greeting in
    let back : stream to_client ≡ map to_upper hello_there = answered ∙ ap (λ r. r.1) served in
    (said ∙ ap (λ r. (hello_there, r)) (hear_lem to_client [] ∙ ap (ended 0) back), served)
