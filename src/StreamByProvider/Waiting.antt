-- ===== src/StreamByProvider/Waiting.antt =====
-- Every callback that is handed to a stream object is called once.

use hula.Common.{
  ℕ, ◌+◌, ◌≡◌, refl, Bool, true, false, not, Option, none, some, List, [], ◌∷◌, ◌==◌, if◌then◌else◌,
  ◌>>=◌, Bool-cases, inl, inr, arith,
}
use hula.StreamByProvider.{
  timeout_, timeout, ask, Kind, same_kind, Context, Slot, Call, Answer, Effect, called,
  StreamByProvider, check_socket, add_context, ask_with, complete, get_state, reply, Info, is_null,
  write_, connect_, connect_inet6, getaddrinfo, shutdown, start_read_, stop_read_, transfer, regain,
  release, destroy, provider_calls, read_slot, error_slot, close_slot, end_slot, start_write_slot,
  stop_write_slot, write_callback, connect_callback, shutdown_callback, getaddrinfo_callback,
  getaddrinfoipv4_callback, getaddrinfoipv6_callback,
}
use hula.StreamByProvider.Events.{
  asks_timeout, state_of, Event, writes, connects, connects_inet6, looks_up, shuts_down, starts,
  stops, transfers, regains, releases, destroyed, provided, write_done, connect_done, shutdown_done,
  info_done, ipv4_done, ipv6_done, World, handle, with_held, put_back, take_out, Holds, bind-Holds,
  assert-Holds, Holds-some,
}

abbrev one : ℕ → ℕ → ℕ
one x cb = if x == cb then 1 else 0

-- How many contexts wait with this callback.
abbrev pub waiting : ℕ → List Context → ℕ
waiting cb [] = 0
waiting cb (c ∷ cs) = one c.callback cb + waiting cb cs

get_state-waiting :
    (cb : ℕ) (kind : Kind) (ptr : ℕ) (cs : List Context)
    → Holds
        (λ (f : ℕ × List Context). one f.0 cb + waiting cb f.1 ≡ waiting cb cs)
        (get_state kind ptr cs)
unfolding get_state
get_state-waiting cb kind ptr [] = tt
get_state-waiting cb kind ptr (c ∷ cs) = elim (Bool-cases (c.pointer == ptr)) [
  | inl e ↦ rw e (assert-Holds _ (same_kind c.kind kind) _ (λ f. refl))
  | inr e ↦ rw e (
      bind-Holds _ (get_state kind ptr cs) _ (λ found f.
        let h = Holds-some _ (get_state kind ptr cs) found (get_state-waiting cb kind ptr cs) f in
        omega arith))
]

module _ {B : Type 0} where
  -- How often it was called.
  abbrev pub calls : ℕ → List (Effect B) → ℕ
  calls cb [] = 0
  calls cb (called x answer ∷ log) = one x cb + calls cb log
  calls cb (_ ∷ log) = calls cb log

  -- How often it was handed over by an event, and by events; that of `timeout` is not counted.
  abbrev pub hands : ℕ → Event B → ℕ
  hands cb (writes ptr buf x) = one x cb
  hands cb (connects ptr target x) = one x cb
  hands cb (connects_inet6 ptr name port x) = one x cb
  hands cb (looks_up kind ptr name x) = one x cb
  hands cb (shuts_down ptr x) = one x cb
  hands cb _ = 0

  abbrev pub handed : ℕ → List (Event B) → ℕ
  handed cb [] = 0
  handed cb (e ∷ es) = hands cb e + handed cb es

  abbrev pub total : ℕ → StreamByProvider B → ℕ
  total cb s = calls cb s.log + waiting cb s.contexts

  abbrev Counts : ℕ → ℕ → StreamByProvider B → Type 0
  Counts cb n s = total cb s ≡ n

  abbrev pub CountsIn : ℕ → ℕ → World B → Type 0
  CountsIn cb n (s, held) = total cb s ≡ n

  ask_with-Counts :
      (cb : ℕ) (c : Context) (ptr : ℕ) (call : Call B) (s : StreamByProvider B)
      → Holds (Counts cb (one c.callback cb + total cb s)) (ask_with c call s)
  unfolding ask_with add_context
  ask_with-Counts cb c ptr call s =
      bind-Holds _ (check_socket s) _
        (λ checked e. assert-Holds _ (not checked.0.send_end) _ (λ f. omega arith))

  with_held-Counts :
      (cb n : ℕ) (held : Option Info) (o : Option (StreamByProvider B))
      → Holds (Counts cb n) o
      → Holds (CountsIn cb n) (with_held held o)
  with_held-Counts cb n held none h = tt
  with_held-Counts cb n held (some s) h = h

  getaddrinfo-Counts :
      (cb : ℕ) (kind : Kind) (ptr : ℕ) (name : List ℕ) (x : ℕ) (s : StreamByProvider B)
      → Holds (Counts cb (one x cb + total cb s)) (getaddrinfo kind ptr name x s)
  unfolding getaddrinfo add_context
  getaddrinfo-Counts cb kind ptr name x s =
      bind-Holds _ (check_socket s) _ (λ checked e. omega arith)

  shutdown-Counts :
      (cb ptr x : ℕ) (s : StreamByProvider B)
      → Holds (Counts cb (one x cb + total cb s)) (shutdown ptr x s)
  unfolding shutdown add_context
  shutdown-Counts cb ptr x s =
      bind-Holds _ (check_socket s) _
        (λ checked e. assert-Holds _ (not checked.0.send_end) _ (λ f. omega arith))

  start_read_-Counts :
      (cb : ℕ) (s : StreamByProvider B) → Holds (Counts cb (total cb s)) (start_read_ s)
  unfolding start_read_
  start_read_-Counts cb s = bind-Holds _ (check_socket s) _ (λ checked e. refl)

  stop_read_-Counts :
      (cb : ℕ) (s : StreamByProvider B) → Holds (Counts cb (total cb s)) (stop_read_ s)
  unfolding stop_read_
  stop_read_-Counts cb s = bind-Holds _ (check_socket s) _ (λ checked e. refl)

  transfer-Counts :
      (cb : ℕ) (s : StreamByProvider B)
      → Holds (λ (r : StreamByProvider B × Info). total cb r.0 ≡ total cb s) (transfer s)
  unfolding transfer
  transfer-Counts cb s = bind-Holds _ (check_socket s) _ (λ checked e.
      bind-Holds _ (stop_read_ s) _
        (λ t f. Holds-some _ (stop_read_ s) t (stop_read_-Counts cb s) f))

  take_out-Counts :
      (cb : ℕ) (held : Option Info) (s : StreamByProvider B)
      → Holds (CountsIn cb (total cb s)) (take_out held s)
  unfolding transfer
  take_out-Counts cb (some info) s = tt
  take_out-Counts cb none s =
      bind-Holds _ (transfer s) _ (λ r e. Holds-some _ (transfer s) r (transfer-Counts cb s) e)

  put_back-Counts :
      (cb : ℕ) (held : Option Info) (s : StreamByProvider B)
      → Holds (CountsIn cb (total cb s)) (put_back held s)
  unfolding regain
  put_back-Counts cb none s = tt
  put_back-Counts cb (some info) s = with_held-Counts cb _ none (regain info s) (
      assert-Holds _ (is_null s.info) _ (λ e.
        bind-Holds _ info.provider _
          (λ provider f. bind-Holds _ info.id _ (λ id g. start_read_-Counts cb _))))

  release-Counts : (cb : ℕ) (s : StreamByProvider B) → Holds (Counts cb (total cb s)) (release s)
  unfolding release
  release-Counts cb s = bind-Holds _ (check_socket s) _ (λ checked e. refl)

  timeout_-Counts :
      (cb x time : ℕ) (s : StreamByProvider B)
      → Holds (Counts cb (total cb s)) (state_of (timeout_ x time s))
  unfolding timeout_
  timeout_-Counts cb x time s = elim (Bool-cases (is_null s.info)) [
    | inl e ↦ rw e refl
    | inr e ↦ rw e (
        bind-Holds _ (check_socket s >>= λ checked. some (ask checked (timeout x time) s, true)) _
          (λ r f.
            Holds-some _ _ r
              (bind-Holds (λ (q : StreamByProvider B × Bool). total cb q.0 ≡ total cb s)
                (check_socket s) _ (λ checked g. refl))
              f))
  ]

  destroy-Counts : (cb : ℕ) (s : StreamByProvider B) → Holds (Counts cb (total cb s)) (destroy s)
  unfolding destroy
  destroy-Counts cb s = elim (Bool-cases (is_null s.info)) [
    | inl e ↦ rw e refl
    | inr e ↦ rw e (release-Counts cb s)
  ]

  provider_calls-Counts :
      (cb : ℕ) (empty : B) (slot : Slot) (buf : B) (s : StreamByProvider B)
      → total cb (provider_calls empty slot buf s) ≡ total cb s
  unfolding provider_calls
  provider_calls-Counts cb empty read_slot buf s = refl
  provider_calls-Counts cb empty error_slot buf s = refl
  provider_calls-Counts cb empty close_slot buf s = refl
  provider_calls-Counts cb empty end_slot buf s = refl
  provider_calls-Counts cb empty start_write_slot buf s = refl
  provider_calls-Counts cb empty stop_write_slot buf s = refl

  reply-Counts :
      (cb : ℕ) (run : Bool) (ptr x : ℕ) (gone answer : Answer B) (s : StreamByProvider B)
      → total cb (reply run ptr x gone answer s) ≡ one x cb + total cb s
  unfolding reply
  reply-Counts cb true ptr x gone answer s = omega arith
  reply-Counts cb false ptr x gone answer s = omega arith

  complete-Counts :
      (cb : ℕ) (kind : Kind) (run : Bool) (ptr : ℕ) (gone answer : Answer B)
      (s : StreamByProvider B)
      → Holds (Counts cb (total cb s)) (complete kind run ptr gone answer s)
  unfolding complete
  complete-Counts cb kind run ptr gone answer s =
      bind-Holds _ (get_state kind ptr s.contexts) _ (λ found e.
        let h =
          Holds-some _ (get_state kind ptr s.contexts) found
            (get_state-waiting cb kind ptr s.contexts) e in
        let k = reply-Counts cb run ptr found.0 gone answer (record s { contexts = found.1 }) in
        omega arith)

  no_hand :
      (cb n : ℕ) (o : Option (World B)) → Holds (CountsIn cb n) o → Holds (CountsIn cb (0 + n)) o
  no_hand cb n o h = let e : 0 + n ≡ n = omega arith in rw e h

  pub handle-Counts :
      (cb : ℕ) (empty : B) (e : Event B) (s : StreamByProvider B) (held : Option Info)
      → Holds (CountsIn cb (hands cb e + total cb s)) (handle empty e s held)
  unfolding write_ connect_ connect_inet6 write_callback connect_callback shutdown_callback
      getaddrinfo_callback getaddrinfoipv4_callback getaddrinfoipv6_callback
  handle-Counts cb empty (writes ptr buf x) s held =
      with_held-Counts cb _ held _ (ask_with-Counts cb _ ptr _ s)
  handle-Counts cb empty (connects ptr target x) s held =
      with_held-Counts cb _ held _ (ask_with-Counts cb _ ptr _ s)
  handle-Counts cb empty (connects_inet6 ptr name port x) s held =
      with_held-Counts cb _ held _ (ask_with-Counts cb _ ptr _ s)
  handle-Counts cb empty (looks_up kind ptr name x) s held =
      with_held-Counts cb _ held _ (getaddrinfo-Counts cb kind ptr name x s)
  handle-Counts cb empty (shuts_down ptr x) s held =
      with_held-Counts cb _ held _ (shutdown-Counts cb ptr x s)
  handle-Counts cb empty (asks_timeout x time) s held =
      no_hand cb (total cb s) _ (with_held-Counts cb _ held _ (timeout_-Counts cb x time s))
  handle-Counts cb empty starts s held =
      no_hand cb (total cb s) _ (with_held-Counts cb _ held _ (start_read_-Counts cb s))
  handle-Counts cb empty stops s held =
      no_hand cb (total cb s) _ (with_held-Counts cb _ held _ (stop_read_-Counts cb s))
  handle-Counts cb empty transfers s held = no_hand cb (total cb s) _ (take_out-Counts cb held s)
  handle-Counts cb empty regains s held = no_hand cb (total cb s) _ (put_back-Counts cb held s)
  handle-Counts cb empty releases s held =
      no_hand cb (total cb s) _ (with_held-Counts cb _ held _ (release-Counts cb s))
  handle-Counts cb empty destroyed s held =
      no_hand cb (total cb s) _ (with_held-Counts cb _ held _ (destroy-Counts cb s))
  handle-Counts cb empty (provided slot buf) s held =
      no_hand cb (total cb s) (some (provider_calls empty slot buf s, held))
        (provider_calls-Counts cb empty slot buf s)
  handle-Counts cb empty (write_done run ptr buf st) s held =
      no_hand cb (total cb s) _ (with_held-Counts cb _ held _ (complete-Counts cb _ run ptr _ _ s))
  handle-Counts cb empty (connect_done run ptr st) s held =
      no_hand cb (total cb s) _ (with_held-Counts cb _ held _ (complete-Counts cb _ run ptr _ _ s))
  handle-Counts cb empty (shutdown_done run ptr st) s held =
      no_hand cb (total cb s) _ (with_held-Counts cb _ held _ (complete-Counts cb _ run ptr _ _ s))
  handle-Counts cb empty (info_done run ptr found) s held =
      no_hand cb (total cb s) _ (with_held-Counts cb _ held _ (complete-Counts cb _ run ptr _ _ s))
  handle-Counts cb empty (ipv4_done run ptr found st) s held =
      no_hand cb (total cb s) _ (with_held-Counts cb _ held _ (complete-Counts cb _ run ptr _ _ s))
  handle-Counts cb empty (ipv6_done run ptr found st) s held =
      no_hand cb (total cb s) _ (with_held-Counts cb _ held _ (complete-Counts cb _ run ptr _ _ s))
