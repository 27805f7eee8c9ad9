-- ===== src/StreamByProvider/Called.antt =====
-- When the provider has answered all that waits, every callback has been called as often as it was
-- handed over.

use hula.Common.{
  ℕ, ◌+◌, ◌≡◌, refl, ap, subst, ℤ, Bool, true, false, Option, none, some, List, [], ◌∷◌, ==_refl,
  arith,
}
use hula.StreamByProvider.{
  Kind, write_kind, connect_kind, end_kind, info_kind, ipv4_kind, ipv6_kind, same_kind, Context,
  Answer, StreamByProvider, complete, get_state, write_callback, connect_callback,
  shutdown_callback, getaddrinfo_callback, getaddrinfoipv4_callback, getaddrinfoipv6_callback,
  reply, Info, register_callback, check_socket, new_stream,
}
use hula.StreamByProvider.Events.{
  Event, write_done, connect_done, shutdown_done, info_done, ipv4_done, ipv6_done, World, handle,
  handle_all, with_held, Holds, bind-Holds, Holds-some,
}
use hula.StreamByProvider.Waiting.{calls, waiting, hands, handed, total, CountsIn, handle-Counts}

same_kind_refl : (k : Kind) → same_kind k k ≡ true
same_kind_refl write_kind = refl
same_kind_refl connect_kind = refl
same_kind_refl end_kind = refl
same_kind_refl info_kind = refl
same_kind_refl ipv4_kind = refl
same_kind_refl ipv6_kind = refl

get_state-head :
    (c : Context) (cs : List Context) → get_state c.kind c.pointer (c ∷ cs) ≡ some (c.callback, cs)
unfolding get_state
get_state-head c cs = rw (==_refl c.pointer, same_kind_refl c.kind) refl

new_stream-total :
    (B : Type 0) (cb provider : ℕ) (id : Option ℕ)
    → Holds (λ (s : StreamByProvider B). total cb s ≡ 0) (new_stream provider id)
unfolding new_stream register_callback check_socket
new_stream-total B cb provider none = tt
new_stream-total B cb provider (some id) = refl

module _ {B : Type 0} where
  -- The callback of a context, with some status and nothing found.
  abbrev pub event_of : Kind → Bool → ℕ → B → ℤ → Event B
  event_of write_kind run ptr empty st = write_done run ptr empty st
  event_of connect_kind run ptr empty st = connect_done run ptr st
  event_of end_kind run ptr empty st = shutdown_done run ptr st
  event_of info_kind run ptr empty st = info_done run ptr []
  event_of ipv4_kind run ptr empty st = ipv4_done run ptr [] st
  event_of ipv6_kind run ptr empty st = ipv6_done run ptr [] st

  -- The provider answers all that waits.
  abbrev pub answers : B → Bool → ℤ → List Context → List (Event B)
  answers empty run st [] = []
  answers empty run st (c ∷ cs) = event_of c.kind run c.pointer empty st ∷ answers empty run st cs

  handle_all-Counts :
      (cb : ℕ) (empty : B) (es : List (Event B)) (w : World B)
      → Holds (CountsIn cb (handed cb es + total cb w.0)) (handle_all empty es w)
  handle_all-Counts cb empty [] w = omega arith
  handle_all-Counts cb empty (e ∷ es) (s, held) = bind-Holds _ (handle empty e s held) _ (λ v f.
      let h = Holds-some _ (handle empty e s held) v (handle-Counts cb empty e s held) f in
      let n : handed cb es + total cb v.0 ≡ handed cb (e ∷ es) + total cb s = omega arith in
      subst (λ n. Holds (CountsIn cb n) (handle_all empty es v)) n
        (handle_all-Counts cb empty es v))

  abbrev Completes : Context → List Context → Bool → StreamByProvider B → Type 0
  Completes c cs run s =
      (gone answer : Answer B)
      → (t : StreamByProvider B) × (complete c.kind run c.pointer gone answer s ≡ some t)
        × (t.contexts ≡ cs)

  reply-contexts :
      (run : Bool) (ptr cb : ℕ) (gone answer : Answer B) (s : StreamByProvider B)
      → (reply run ptr cb gone answer s).contexts ≡ s.contexts
  unfolding reply
  reply-contexts true ptr cb gone answer s = refl
  reply-contexts false ptr cb gone answer s = refl

  complete-head :
      (c : Context) (cs : List Context) (run : Bool) (s : StreamByProvider B)
      → s.contexts ≡ c ∷ cs
      → Completes c cs run s
  unfolding complete
  complete-head c cs run s e gone answer = (
    reply run c.pointer c.callback gone answer (record s { contexts = cs }),
    rw (e, get_state-head c cs) refl,
    reply-contexts run c.pointer c.callback gone answer (record s { contexts = cs }),
  )

  handle-event_of :
      (kind : Kind) (ptr cb : ℕ) (cs : List Context) (empty : B) (run : Bool) (st : ℤ)
      (s : StreamByProvider B) (held : Option Info)
      → s.contexts ≡ record { pointer = ptr; kind = kind; callback = cb } ∷ cs
      → (t : StreamByProvider B) × (handle empty (event_of kind run ptr empty st) s held
          ≡ some (t, held))
        × (t.contexts ≡ cs)
  unfolding write_callback connect_callback shutdown_callback getaddrinfo_callback
      getaddrinfoipv4_callback getaddrinfoipv6_callback
  handle-event_of write_kind ptr cb cs empty run st s held e =
      let (t, f, k) = complete-head _ cs run s e _ _ in (t, ap (with_held held) f, k)
  handle-event_of connect_kind ptr cb cs empty run st s held e =
      let (t, f, k) = complete-head _ cs run s e _ _ in (t, ap (with_held held) f, k)
  handle-event_of end_kind ptr cb cs empty run st s held e =
      let (t, f, k) = complete-head _ cs run s e _ _ in (t, ap (with_held held) f, k)
  handle-event_of info_kind ptr cb cs empty run st s held e =
      let (t, f, k) = complete-head _ cs run s e _ _ in (t, ap (with_held held) f, k)
  handle-event_of ipv4_kind ptr cb cs empty run st s held e =
      let (t, f, k) = complete-head _ cs run s e _ _ in (t, ap (with_held held) f, k)
  handle-event_of ipv6_kind ptr cb cs empty run st s held e =
      let (t, f, k) = complete-head _ cs run s e _ _ in (t, ap (with_held held) f, k)

  handle_all-answers :
      (cs : List Context) (empty : B) (run : Bool) (st : ℤ) (s : StreamByProvider B)
      (held : Option Info)
      → s.contexts ≡ cs
      → (t : StreamByProvider B) × (handle_all empty (answers empty run st cs) (s, held)
          ≡ some (t, held))
        × (t.contexts ≡ [])
  handle_all-answers [] empty run st s held e = (s, refl, e)
  handle_all-answers (c ∷ cs) empty run st s held e =
      let (u, f, k) = handle-event_of c.kind c.pointer c.callback cs empty run st s held e in
      let (t, g, l) = handle_all-answers cs empty run st u held k in (t, rw f g, l)

  hands-event_of :
      (cb : ℕ) (kind : Kind) (run : Bool) (ptr : ℕ) (empty : B) (st : ℤ)
      → hands cb (event_of kind run ptr empty st) ≡ 0
  hands-event_of cb write_kind run ptr empty st = refl
  hands-event_of cb connect_kind run ptr empty st = refl
  hands-event_of cb end_kind run ptr empty st = refl
  hands-event_of cb info_kind run ptr empty st = refl
  hands-event_of cb ipv4_kind run ptr empty st = refl
  hands-event_of cb ipv6_kind run ptr empty st = refl

  handed-answers :
      (cb : ℕ) (cs : List Context) (empty : B) (run : Bool) (st : ℤ)
      → handed cb (answers empty run st cs) ≡ 0
  handed-answers cb [] empty run st = refl
  handed-answers cb (c ∷ cs) empty run st =
      let h = hands-event_of cb c.kind run c.pointer empty st in
      let k = handed-answers cb cs empty run st in omega arith

  -- Take a new stream object, and any events that run without a failed assertion: `_write`, `connect`,
  -- the look-ups, `shutdown`, `timeout`, `start_read`, `stop_read`, `transfer`, `regain`, `release`,
  -- the destructor, and calls of the provider with any result, with the object there or gone. If the
  -- provider then calls back for each context that waits, with any status, whether or not the object
  -- is gone, this runs too and leaves no context, and every callback has been called exactly as often
  -- as it was handed to `_write`, `connect`, a look-up or `shutdown`. The callback of `timeout` is
  -- not counted: it has no context, and the object never calls it.
  pub handle_all-calls :
      (provider : ℕ) (id : Option ℕ) (empty : B) (es : List (Event B)) (run : Bool) (st : ℤ)
      (new s : StreamByProvider B) (held : Option Info)
      → new_stream provider id ≡ some new
      → handle_all empty es (new, none) ≡ some (s, held)
      → (t : StreamByProvider B) × (handle_all empty (answers empty run st s.contexts) (s, held)
          ≡ some (t, held))
        × (t.contexts ≡ [])
        × ((cb : ℕ) → calls cb t.log ≡ handed cb es)
  handle_all-calls provider id empty es run st new s held e f =
      let (t, g, k) = handle_all-answers s.contexts empty run st s held refl in
      (
        t,
        g,
        k,
        λ cb.
            let a =
              Holds-some _ (new_stream provider id) new (new_stream-total B cb provider id) e in
            let b = Holds-some _ _ (s, held) (handle_all-Counts cb empty es (new, none)) f in
            let c =
              Holds-some _ _ (t, held)
                (handle_all-Counts cb empty (answers empty run st s.contexts) (s, held)) g in
            let d = handed-answers cb s.contexts empty run st in
            let w : waiting cb t.contexts ≡ 0 = rw k refl in omega arith,
      )
