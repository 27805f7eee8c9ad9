-- ===== src/StreamByProvider/Ending.antt =====
-- What is sent on a stream before and after `end`, and what each method keeps of it.

use hula.Common.{
  ℕ, ◌≡◌, refl, sym, ap, ◌∙◌, Bool, true, false, not, ◌&&◌, ◌||◌, Option, none, some, some_cancel,
  not_some, subst, List, [], ◌∷◌, ◌==◌, ==_iff, ==_refl, ◌>>=◌, Bool-cases, Option-cases, inl, inr,
}
use hula.StreamByProvider.{
  timeout_, timeout, ask, Kind, Context, Call, write_call, connect_call, finish, Answer, Effect,
  asked, StreamByProvider, check_socket, add_context, ask_with, complete, get_state, reply, Info,
  is_null, getaddrinfo, shutdown, start_read_, stop_read_, release, destroy,
}
use hula.StreamByProvider.Events.{state_of, World, Holds, bind-Holds, Holds-some, assert-Holds}

module _ {B : Type 0} where
  abbrev is_finish : Call B → Bool
  is_finish (finish ptr) = true
  is_finish _ = false

  abbrev is_send : Call B → Bool
  is_send (write_call buf ptr) = true
  is_send (connect_call target ptr) = true
  is_send (finish ptr) = true
  is_send _ = false

  abbrev finishes : ℕ → ℕ → Effect B → Bool
  finishes p i (asked q j call) = is_finish call && ((q == p) && (j == i))
  finishes p i _ = false

  -- A write, a connect or an `end` on stream i of provider p.
  abbrev pub sends : ℕ → ℕ → Effect B → Bool
  sends p i (asked q j call) = is_send call && ((q == p) && (j == i))
  sends p i _ = false

  -- `end` is in the log.
  abbrev pub finished : ℕ → ℕ → List (Effect B) → Bool
  finished p i [] = false
  finished p i (e ∷ log) = finishes p i e || finished p i log

  -- Whatever is sent is sent before `end`; the log has the latest first.
  abbrev pub Quiet : ℕ → ℕ → List (Effect B) → Type 0
  Quiet p i [] = Unit
  Quiet p i (e ∷ log) = ((sends p i e && finished p i log) ≡ false) × Quiet p i log

-- The flag of the info says whether its stream is finished; at most one of two places has the info.
abbrev pub Told : ℕ → ℕ → Info → Bool → Type 0
Told p i info b = info.provider ≡ some p → info.id ≡ some i → info.send_end ≡ b

abbrev pub Tells : ℕ → ℕ → Option Info → Option Info → Bool → Type 0
Tells p i none none b = Unit
Tells p i (some info) none b = Told p i info b
Tells p i none (some info) b = Told p i info b
Tells p i (some info) (some other) b = ⊥

pub here-Told :
    (p i : ℕ) (info : Info) (o held : Option Info) (b : Bool)
    → o ≡ some info
    → Tells p i o held b
    → Told p i info b
here-Told p i info none held b e h = absurd (not_some e)
here-Told p i info (some x) none b e h = subst (λ y. Told p i y b) (some_cancel e) h
here-Told p i info (some x) (some other) b e h = absurd h

gone-Tells :
    (p i : ℕ) (o held : Option Info) (b : Bool) → Tells p i o held b → Tells p i none held b
gone-Tells p i o none b h = tt
gone-Tells p i none (some info) b h = h
gone-Tells p i (some x) (some info) b h = absurd h

finished-Tells :
    (p i pr id : ℕ) (info : Info) (o held : Option Info) (b : Bool)
    → o ≡ some info
    → info.provider ≡ some pr
    → info.id ≡ some id
    → Tells p i o held b
    → Tells p i (some (record info { send_end = true })) held (((pr == p) && (id == i)) || b)
finished-Tells p i pr id info none held b e f g h = absurd (not_some e)
finished-Tells p i pr id info (some x) (some other) b e f g h = absurd h
finished-Tells p i pr id info (some x) none b e f g h = λ k l.
    let same_p : pr ≡ p = some_cancel (sym f ∙ k) in
    let same_i : id ≡ i = some_cancel (sym g ∙ l) in rw (same_p, same_i, ==_refl p, ==_refl i) refl

pub back-Tells :
    (p i : ℕ) (o : Option Info) (info : Info) (b : Bool)
    → Tells p i o (some info) b
    → Tells p i (some info) none b
back-Tells p i none info b h = h
back-Tells p i (some x) info b h = absurd h

not-true : (b : Bool) → not b ≡ true → b ≡ false
not-true false e = refl
not-true true e = sym e

module _ {B : Type 0} where
  abbrev pub IsQuiet : ℕ → ℕ → World B → Type 0
  IsQuiet p i (s, held) = Quiet p i s.log × Tells p i s.info held (finished p i s.log)

  abbrev pub KeepsQuiet : ℕ → ℕ → Option Info → Option (StreamByProvider B) → Type 0
  KeepsQuiet p i held o = Holds (λ (t : StreamByProvider B). IsQuiet p i (t, held)) o

  pub check-Holds {κ} :
      {A : Type κ} (P : A → Type 0) (s : StreamByProvider B) (k : Info × ℕ × ℕ → Option A)
      → ((info : Info) (pr id : ℕ)
          → s.info ≡ some info
          → info.provider ≡ some pr
          → info.id ≡ some id
          → Holds P (k (info, pr, id)))
      → Holds P (check_socket s >>= k)
  unfolding check_socket
  check-Holds P s k h = elim (Option-cases s.info) [
    | inl e ↦ rw e tt
    | inr (info, e) ↦ elim (Option-cases info.provider) [
      | inl f ↦ rw (e, f) tt
      | inr (pr, f) ↦ elim (Option-cases info.id) [
        | inl g ↦ rw (e, f, g) tt
        | inr (id, g) ↦ simp (e, f, g) (h info pr id e f g)
      ]
    ]
  ]

  sends_unfinished :
      (p i pr id : ℕ) (call : Call B) (info : Info) (b : Bool)
      → info.provider ≡ some pr
      → info.id ≡ some id
      → info.send_end ≡ false
      → Told p i info b
      → (sends p i (asked pr id call) && b) ≡ false
  sends_unfinished p i pr id call info b e f g h = elim (Bool-cases (is_send call)) [
    | inr k ↦ rw k refl
    | inl k ↦ elim (Bool-cases (pr == p)) [
      | inr l ↦ rw (k, l) refl
      | inl l ↦ elim (Bool-cases (id == i)) [
        | inr m ↦ rw (k, l, m) refl
        | inl m ↦
            let same_p = (==_iff pr p).0 l in
            let same_i = (==_iff id i).0 m in
            let n : b ≡ false = sym (h (e ∙ ap some same_p) (f ∙ ap some same_i)) ∙ g in
            rw (k, l, m, n) refl
      ]
    ]
  ]

  pub ask_with-KeepsQuiet :
      (p i : ℕ) (c : Context) (call : Call B) (s : StreamByProvider B) (held : Option Info)
      → is_finish call ≡ false
      → IsQuiet p i (s, held)
      → KeepsQuiet p i held (ask_with c call s)
  unfolding ask_with add_context
  ask_with-KeepsQuiet p i c call s held n (q, h) = check-Holds _ s _ (λ info pr id e f g.
      assert-Holds _ (not info.send_end) _ (λ l.
        let told = here-Told p i info s.info held _ e h in
        ((sends_unfinished p i pr id call info _ f g (not-true _ l) told, (refl, q)), rw n h)))

  pub start_read_-KeepsQuiet :
      (p i : ℕ) (s : StreamByProvider B) (held : Option Info)
      → IsQuiet p i (s, held)
      → KeepsQuiet p i held (start_read_ s)
  unfolding start_read_
  start_read_-KeepsQuiet p i s held (q, h) =
      bind-Holds _ (check_socket s) _ (λ checked e. ((refl, q), h))

  pub stop_read_-KeepsQuiet :
      (p i : ℕ) (s : StreamByProvider B) (held : Option Info)
      → IsQuiet p i (s, held)
      → KeepsQuiet p i held (stop_read_ s)
  unfolding stop_read_
  stop_read_-KeepsQuiet p i s held (q, h) =
      bind-Holds _ (check_socket s) _ (λ checked e. ((refl, q), h))

  pub getaddrinfo-KeepsQuiet :
      (p i : ℕ) (kind : Kind) (ptr : ℕ) (name : List ℕ) (x : ℕ) (s : StreamByProvider B)
      (held : Option Info)
      → IsQuiet p i (s, held)
      → KeepsQuiet p i held (getaddrinfo kind ptr name x s)
  unfolding getaddrinfo add_context
  getaddrinfo-KeepsQuiet p i kind ptr name x s held (q, h) =
      bind-Holds _ (check_socket s) _ (λ checked e. ((refl, (refl, q)), h))

  pub release-KeepsQuiet :
      (p i : ℕ) (s : StreamByProvider B) (held : Option Info)
      → IsQuiet p i (s, held)
      → KeepsQuiet p i held (release s)
  unfolding release
  release-KeepsQuiet p i s held (q, h) =
      bind-Holds _ (check_socket s) _ (λ checked e. ((refl, q), gone-Tells p i s.info held _ h))

  pub timeout_-KeepsQuiet :
      (p i x time : ℕ) (s : StreamByProvider B) (held : Option Info)
      → IsQuiet p i (s, held)
      → KeepsQuiet p i held (state_of (timeout_ x time s))
  unfolding timeout_
  timeout_-KeepsQuiet p i x time s held (q, h) = elim (Bool-cases (is_null s.info)) [
    | inl e ↦ rw e (q, h)
    | inr e ↦ rw e (
        bind-Holds _ (check_socket s >>= λ checked. some (ask checked (timeout x time) s, true)) _
          (λ r f.
            Holds-some _ _ r
              (bind-Holds (λ (t : StreamByProvider B × Bool). IsQuiet p i (t.0, held))
                (check_socket s) _ (λ checked g. ((refl, q), h)))
              f))
  ]

  pub destroy-KeepsQuiet :
      (p i : ℕ) (s : StreamByProvider B) (held : Option Info)
      → IsQuiet p i (s, held)
      → KeepsQuiet p i held (destroy s)
  unfolding destroy
  destroy-KeepsQuiet p i s held h = elim (Bool-cases (is_null s.info)) [
    | inl e ↦ rw e h
    | inr e ↦ rw e (release-KeepsQuiet p i s held h)
  ]

  pub complete-KeepsQuiet :
      (p i : ℕ) (kind : Kind) (run : Bool) (ptr : ℕ) (gone answer : Answer B)
      (s : StreamByProvider B) (held : Option Info)
      → IsQuiet p i (s, held)
      → KeepsQuiet p i held (complete kind run ptr gone answer s)
  unfolding complete reply
  complete-KeepsQuiet p i kind true ptr gone answer s held (q, h) =
      bind-Holds _ (get_state kind ptr s.contexts) _ (λ found e. ((refl, (refl, q)), h))
  complete-KeepsQuiet p i kind false ptr gone answer s held (q, h) =
      bind-Holds _ (get_state kind ptr s.contexts) _ (λ found e. ((refl, q), h))

  pub shutdown-KeepsQuiet :
      (p i ptr x : ℕ) (s : StreamByProvider B) (held : Option Info)
      → IsQuiet p i (s, held)
      → KeepsQuiet p i held (shutdown ptr x s)
  unfolding shutdown add_context
  shutdown-KeepsQuiet p i ptr x s held (q, h) = check-Holds _ s _ (λ info pr id e f g.
      assert-Holds _ (not info.send_end) _ (λ l.
        let told = here-Told p i info s.info held _ e h in
        (
          (sends_unfinished p i pr id (finish ptr) info _ f g (not-true _ l) told, (refl, q)),
          finished-Tells p i pr id info s.info held _ e f g h,
        )))
