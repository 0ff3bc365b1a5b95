-- ===== src/Lunix/Protocol/Chunks.antt =====
-- How the terminal cuts the bytes of a packet into buffers makes no difference: one field.
use c_development_on_linux.Base.{
  ℕ, suc, ◌+◌, ◌<◌, ◌≤◌, ◌≢◌, Bool, true, false, List, [], ◌∷◌, ◌++◌, ◌≡◌, refl, ◌∙◌, inl, inr,
  arith, ltb, ◌==◌, if◌then◌else◌, Bool-cases, ==_iff, ==_of_ne, sym,
}
use c_development_on_linux.Base.Bytes.{AreBytes}
use c_development_on_linux.Lunix.Protocol.{
  ProtocolState, Parsed, complete, partial, failed, max_packet_len, take_byte, parse_loop,
  parse_state, is_complete, set_state, advance,
}
use c_development_on_linux.Lunix.Protocol.Field.{parse_state-FieldRead}
use c_development_on_linux.Lunix.Protocol.Bounds.{Passed, Follows, advance-Passed}
use c_development_on_linux.Lunix.Protocol.Layout.{Inv, pos-le, take_byte-Inv}

-- More bytes of the field are wanted.
abbrev pub Wants : ProtocolState → Type 0
Wants s = s.bytes_read < s.bytes_to_read

iter_free :
    (sp : Bool) (i j : ℕ) (s : ProtocolState) (buf : List ℕ)
    → parse_loop false sp i s buf ≡ parse_loop false sp j s buf
unfolding parse_loop
iter_free sp i j s [] = refl
iter_free sp i j s (x ∷ buf) = rw (iter_free sp (i + 1) (j + 1) (take_byte sp s x) buf) refl

-- What the parsing of a field from two buffers at once, `more`, has to do with that from the first,
-- `out`, when the second holds `b`: the field ended in the first, or the first was used up.
pub data Cut (b : List ℕ) (sp : Bool) (out more : ProtocolState × List ℕ × Parsed) : Type 0 where
  ended : out.2 ≡ complete → more ≡ (out.0, out.1 ++ b, complete) → Cut b sp out more
  used_up :
      out.2 ≡ partial
      → out.1 ≡ []
      → Wants out.0
      → more ≡ parse_state false sp out.0 b
      → Cut b sp out more

full : (s : ProtocolState) → Inv s → (s.pos == max_packet_len) ≡ false
full s h = ground (arith, pos-le s h)

stays_ended :
    (sp : Bool) (i : ℕ) (s : ProtocolState) (b : List ℕ)
    → s.bytes_read ≡ s.bytes_to_read
    → parse_loop false sp i s b ≡ (s, b, complete)
unfolding parse_loop
stays_ended sp i s [] e = let whole = (==_iff s.bytes_read s.bytes_to_read).1 e in rw whole refl
stays_ended sp i s (x ∷ b) e =
    let whole = (==_iff s.bytes_read s.bytes_to_read).1 e in
    let over : ltb s.bytes_read s.bytes_to_read ≡ false = ground (arith, e) in rw (over, whole) refl

parse_loop-Cut :
    (sp : Bool) (i : ℕ) (s : ProtocolState) (a b : List ℕ)
    → Inv s
    → AreBytes a
    → Cut b sp (parse_loop false sp i s a) (parse_loop false sp i s (a ++ b))
unfolding parse_loop parse_state
parse_loop-Cut sp i s [] b h p = elim (Bool-cases (s.bytes_read == s.bytes_to_read)) [
  | inl whole ↦ let e = stays_ended sp i s b ((==_iff _ _).0 whole) in ended (rw whole refl) e
  | inr more ↦ used_up (rw more refl) refl (ground (arith, h.within)) (iter_free sp i 0 s b)
]
parse_loop-Cut sp i s (x ∷ a) b h p = elim (Bool-cases (ltb s.bytes_read s.bytes_to_read)) [
  | inr over ↦
      let whole : (s.bytes_read == s.bytes_to_read) ≡ true = ground (arith, h.within) in
      rw (over) (ended (rw whole refl) (rw whole refl))
  | inl more ↦
      rw (more, full s h)
        (parse_loop-Cut sp (i + 1) (take_byte sp s x) a b
          (take_byte-Inv sp s x h (ground arith) p.0) p.1)
]

-- What `advance` does in its state.
abbrev advanced : ℕ → (ProtocolState → ℕ) → ProtocolState × List ℕ × Parsed → ProtocolState × List ℕ
advanced next q (s, rest, r) = (if is_complete r then set_state s next (q s) 0 else s, rest)

advance_here :
    (from : ℕ) (sp : Bool) (next : ℕ) (q : ProtocolState → ℕ) (s : ProtocolState) (buf : List ℕ)
    → s.state ≡ from
    → advance false from sp next q (s, buf) ≡ advanced next q (parse_state false sp s buf)
unfolding advance
advance_here from sp next q s buf e = rw ((==_iff s.state from).1 e) refl

advance_elsewhere :
    (from : ℕ) (sp : Bool) (next : ℕ) (q : ProtocolState → ℕ) (s : ProtocolState) (buf : List ℕ)
    → s.state ≢ from
    → advance false from sp next q (s, buf) ≡ (s, buf)
unfolding advance
advance_elsewhere from sp next q s buf e = rw (==_of_ne s.state from e) refl

abbrev pub Step : Type 0
Step = ProtocolState × List ℕ → ProtocolState × List ℕ

-- The statements up to the one for a state do nothing for a later state.
abbrev pub Skips : Step → ℕ → Type 0
Skips run n = (s : ProtocolState) (buf : List ℕ) → n < s.state → run (s, buf) ≡ (s, buf)

-- What these statements make of two buffers at once, `y`, and of the first one, `x`, when the second
-- holds `b`: they are past the state, or the first buffer was used up before.
pub data Behind (b : List ℕ) (run : Step) (n : ℕ) (x y : ProtocolState × List ℕ) : Type 0 where
  ahead : n < x.0.state → (x.0.state ≡ 9 → Wants x.0) → y ≡ (x.0, x.1 ++ b) → Behind b run n x y
  stopped : x.1 ≡ [] → x.0.state ≤ n → Wants x.0 → y ≡ run (x.0, b) → Behind b run n x y

Skips-advance :
    (run : Step) (n : ℕ) (sp : Bool) (next : ℕ) (q : ProtocolState → ℕ)
    → Skips run n
    → Skips (λ c. advance false (suc n) sp next q (run c)) (suc n)
Skips-advance run n sp next q k s buf h =
    rw (k s buf (omega (arith, h)))
      (advance_elsewhere (suc n) sp next q s buf (λ e. omega (arith, e, h)))

module _ (b : List ℕ) (run : Step) (n : ℕ) (sp : Bool) (q : ProtocolState → ℕ)
    (k : Skips run n) where
  abbrev next_run : Step
  next_run = λ c. advance false (suc n) sp (suc (suc n)) q (run c)

  -- the field of the state
  advanced-Behind :
      (out more : ProtocolState × List ℕ × Parsed)
      → out.0.state ≡ suc n
      → Inv ((advanced (suc (suc n)) q out).0)
      → Cut b sp out more
      → Behind b next_run (suc n) (advanced (suc (suc n)) q out) (advanced (suc (suc n)) q more)
  unfolding set_state
  advanced-Behind (t, rest, complete) more e inv (ended c f) =
      ahead (omega arith) (λ nine. let one = inv.wanted in ground (arith, one)) (rw f refl)
  advanced-Behind (t, rest, partial) more e inv (ended c f) = absurd cc
  advanced-Behind (t, rest, failed) more e inv (ended c f) = absurd cc
  advanced-Behind (t, rest, complete) more e inv (used_up c u w f) = absurd cc
  advanced-Behind (t, rest, partial) more e inv (used_up c u w f) =
      let here : advance false (suc n) sp (suc (suc n)) q (t, b)
          ≡ advanced (suc (suc n)) q (parse_state false sp t b) =
        advance_here (suc n) sp (suc (suc n)) q t b e in
      stopped u (omega (arith, e)) w (rw (f, k t b (omega (arith, e))) (sym here))
  advanced-Behind (t, rest, failed) more e inv (used_up c u w f) = absurd cc

  advance-Behind :
      (x y : ProtocolState × List ℕ)
      → Follows (suc n) (suc (suc n)) q
      → Inv x.0
      → AreBytes x.1
      → Behind b run n x y
      → Behind b next_run
          (suc n)
          (advance false (suc n) sp (suc (suc n)) q x)
          (advance false (suc n) sp (suc (suc n)) q y)
  advance-Behind (s, a) y f h p (ahead past nine e) = elim (Bool-cases (s.state == suc n)) [
    | inl at ↦
        let here : s.state ≡ suc n = (==_iff s.state (suc n)).0 at in
        let r = parse_state-FieldRead false sp s a h p in
        let kept = (advance-Passed false (suc n) sp (suc (suc n)) q (s, a) f (h, p)).0 in
        rw
          (
            e,
            advance_here (suc n) sp (suc (suc n)) q s a here,
            advance_here (suc n) sp (suc (suc n)) q s (a ++ b) here,
          )
          (advanced-Behind (parse_state false sp s a) (parse_state false sp s (a ++ b))
            (r.same_field ∙ here) (rw (advance_here (suc n) sp (suc (suc n)) q s a here) at kept)
            (unfold parse_state in parse_loop-Cut sp 0 s a b h p))
    | inr not_at ↦
        let other : s.state ≢ suc n = λ z. ground (arith, not_at, z) in
        rw
          (
            e,
            advance_elsewhere (suc n) sp (suc (suc n)) q s a other,
            advance_elsewhere (suc n) sp (suc (suc n)) q s (a ++ b) other,
          )
          (ahead (omega (arith, past, other)) nine refl)
  ]
  advance-Behind (s, a) y f h p (stopped u low w e) =
      let other : s.state ≢ suc n = λ z. omega (arith, low, z) in
      rw (advance_elsewhere (suc n) sp (suc (suc n)) q s a other)
        (stopped u (omega (arith, low)) w (rw e refl))

-- the statements up to the one for a state, on the bytes `a` and on `a ++ b`
pub record Track (b : List ℕ) (run : Step) (n : ℕ) (s : ProtocolState) (a : List ℕ) : Type 0 where
  pub skips : Skips run n
  pub passed : Passed (run (s, a))
  pub behind : Behind b run n (run (s, a)) (run (s, a ++ b))

pub start-Track :
    (b : List ℕ) (s : ProtocolState) (a : List ℕ)
    → Inv s
    → AreBytes a
    → (s.state ≡ 9 → Wants s)
    → Track b (λ c. c) 0 s a
start-Track b s a h p nine = record {
  skips = λ t buf past. refl;
  passed = (h, p);
  behind = ahead (omega (arith, h.first)) nine refl;
}

pub advance-Track :
    (b : List ℕ) (run : Step) (n : ℕ) (sp : Bool) (q : ProtocolState → ℕ) (s : ProtocolState)
    (a : List ℕ)
    → Follows (suc n) (suc (suc n)) q
    → Track b run n s a
    → Track b (λ c. advance false (suc n) sp (suc (suc n)) q (run c)) (suc n) s a
advance-Track b run n sp q s a f t = record {
  skips = Skips-advance run n sp (suc (suc n)) q t.skips;
  passed = advance-Passed false (suc n) sp (suc (suc n)) q (run (s, a)) f t.passed;
  behind =
      advance-Behind b run n sp q t.skips (run (s, a)) (run (s, a ++ b)) f t.passed.0 t.passed.1
        t.behind;
}
