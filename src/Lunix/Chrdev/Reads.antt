-- ===== src/Lunix/Chrdev/Reads.antt =====
-- Reads of a new measurement.
use c_development_on_linux.Base.{
  ℕ, suc, ◌+◌, ◌^◌, ◌≤◌, ◌<◌, true, false, List, [], ◌∷◌, ◌++◌, some, ◌≡◌, refl, sym, ap, ◌∙◌,
  arith, length, All, append-nil, take-append-drop,
}
use c_development_on_linux.Lunix.Sensors.{MsrData}
use c_development_on_linux.Lunix.Chrdev.{
  ChrdevState, measurement, Long, Lookup, text_of, up, down, Env, wait_event, refresh, state_relock,
  state_update, bytes, copy_out, read, snprintf, chrdev_bufsz,
}
use c_development_on_linux.Lunix.Chrdev.Text.{length-text_of, snprintf-text}
use c_development_on_linux.Lunix.Chrdev.Copies.{
  read_all, total, Holds, up-down, copy_some, copy_last, rest_of_text,
}

-- A read at the first byte that goes well: the wait ends with a new measurement `d` that the table
-- shows as `x`, and other readers of the file have given the semaphore back.
pub record Fresh (lookup : Lookup) (env : Env) (s : ChrdevState) (d : MsrData) (x : Long)
    : Type 0 where
  pub granted : env.granted ≡ true
  pub writable : env.writable ≡ true
  pub woken : wait_event env.seen s ≡ some true
  pub others : ChrdevState → ChrdevState
  pub relocked : env.relocked ≡ some others
  pub same_lock : (others s).lock ≡ s.lock
  pub same_sensor : (others s).sensor ≡ s.sensor
  pub same_type : (others s).type ≡ s.type
  pub measured : measurement s.type s.sensor env.memory ≡ some d
  pub looked_up : lookup s.type d.value ≡ some x
  pub in_int : x.magnitude < 2 ^ 31

-- the state that holds the text of `x`
abbrev pub updated : ChrdevState → ℕ → MsrData → Long → ChrdevState
updated t lock d x = record t {
  buf_timestamp = d.last_update;
  buf_data = snprintf t.buf_data chrdev_bufsz (text_of x);
  buf_lim = length (text_of x);
  lock = lock;
}

updated-Holds :
    (t : ChrdevState) (n : ℕ) (d : MsrData) (x : Long)
    → x.magnitude < 2 ^ 31
    → 0 < n
    → Holds (text_of x) (updated t n d x)
updated-Holds t n d x small p = record {
  tail = _;
  content = snprintf-text t.buf_data (text_of x) (omega (arith, length-text_of x small));
  lim = refl;
  free = p;
}

module _ (lookup : Lookup) (env : Env) (s : ChrdevState) (d : MsrData) (x : Long)
    (v : Fresh lookup env s d x) (p : 0 < s.lock) where
  update_fresh : state_update lookup env (down s) ≡ some (down (updated (v.others s) s.lock d x))
  unfolding state_update state_relock refresh
  update_fresh =
      rw
        (
          up-down s p,
          v.woken,
          v.relocked,
          v.same_sensor,
          v.same_type,
          v.same_lock,
          v.measured,
          v.looked_up,
        )
        refl

  read_first :
      (cnt : ℕ)
      → read lookup env cnt 1 s ≡ copy_out true cnt 1 (down (updated (v.others s) s.lock d x))
  unfolding read
  read_first cnt = rw (update_fresh, v.granted, v.writable) refl

-- Reads of any positive sizes that together ask for at least the text, the last of them for its
-- end, bring exactly the text of the new measurement. The file is then at its first byte again, the
-- semaphore has the count that it had, and the time of the measurement is kept.
pub read_all-text_of :
    (lookup : Lookup) (env : Env) (s : ChrdevState) (d : MsrData) (x : Long) (cs : List ℕ) (c : ℕ)
    → Fresh lookup env s d x
    → 0 < s.lock
    → All (λ n. 0 < n) cs
    → total cs < length (text_of x)
    → length (text_of x) ≤ total cs + c
    → (t : ChrdevState) × (t.lock ≡ s.lock)
      × (t.buf_timestamp ≡ d.last_update)
      × (read_all lookup env (cs ++ c ∷ []) 1 s ≡ some (1, t, text_of x))
unfolding read_all
read_all-text_of lookup env s d x [] c v p positive below enough =
    let t = updated (v.others s) s.lock d x in
    let h = updated-Holds (v.others s) s.lock d x v.in_int p in
    (
      t,
      refl,
      refl,
      rw
          (
            read_first lookup env s d x v p c,
            copy_last (text_of x) t 0 c h (omega arith) (omega (arith, enough)),
            append-nil (text_of x),
          )
          refl,
    )
read_all-text_of lookup env s d x (n ∷ cs) c v p positive below enough =
    let t = updated (v.others s) s.lock d x in
    let h = updated-Holds (v.others s) s.lock d x v.in_int p in
    let more =
      rest_of_text lookup env (text_of x) t cs c n v.granted v.writable h positive.0
        (omega (arith, below)) (omega (arith, enough)) in
    let e : 1 + n ≡ suc n = omega arith in
    (
      t,
      refl,
      refl,
      rw
          (
            read_first lookup env s d x v p n,
            copy_some (text_of x) t 0 n h (omega (arith, below)),
            e,
            more,
            take-append-drop n (text_of x),
          )
          refl,
    )

-- A signal that ends the wait for a measurement is not reported: the read goes on with the text
-- that the buffer held before, and the semaphore ends with a count that is higher by one, so that
-- two readers can hold it at the same time.
pub read_interrupted :
    (lookup : Lookup) (env : Env) (text : List ℕ) (s : ChrdevState) (cnt : ℕ)
    → env.granted ≡ true
    → env.writable ≡ true
    → wait_event env.seen s ≡ some false
    → Holds text s
    → length text ≤ cnt
    → read lookup env cnt 1 s ≡ some (bytes (length text), 1, record s { lock = s.lock + 1 }, text)
unfolding read
read_interrupted lookup env text s cnt g w stale h enough =
    let u = up s in
    let same : state_update lookup env (down s) ≡ some s =
      unfold state_update state_relock in rw (up-down s h.free, stale) refl in
    let held : Holds text u = record {
      tail = h.tail;
      content = h.content;
      lim = h.lim;
      free = omega arith;
    } in
    let down_up : down u ≡ s = ap (λ n. record s { lock = n }) (omega arith) in
    let out : copy_out true cnt 1 s ≡ some (bytes (length text), 1, u, text) =
      sym (ap (copy_out true cnt 1) down_up)
      ∙ copy_last text u 0 cnt held (omega arith) (omega (arith, enough))
      ∙ ap (λ n. some (bytes n, 1, u, text)) (omega arith) in
    rw (same, g, w, out) refl
