-- ===== src/StreamByProvider/Events.antt =====
-- Sequences of what happens to a stream object: its methods, the callbacks of the provider, and the
-- info that `transfer` takes out and `regain` puts back.

use hula.Common.{
  ℕ, ◌≡◌, refl, subst, ℤ, Bool, true, false, Option, none, some, List, [], ◌∷◌, ◌>>=◌, ◌>>◌, assert,
}
use hula.StreamByProvider.{
  Kind, Target, Slot, Info, StreamByProvider, write_, connect_, connect_inet6, getaddrinfo,
  shutdown, start_read_, stop_read_, transfer, regain, release, destroy, timeout_, provider_calls,
  write_callback, connect_callback, shutdown_callback, getaddrinfo_callback,
  getaddrinfoipv4_callback, getaddrinfoipv6_callback,
}

-- A method has the address of its new context and the callback; `timeout` has no context; a `_done` has whether the object is
-- there and the address of the context.
pub data Event (B : Type 0) : Type 0 where
  writes : ℕ → B → ℕ → Event B
  connects : ℕ → Target → ℕ → Event B
  connects_inet6 : ℕ → List ℕ → ℕ → ℕ → Event B
  looks_up : Kind → ℕ → List ℕ → ℕ → Event B
  shuts_down : ℕ → ℕ → Event B
  asks_timeout : ℕ → ℕ → Event B
  starts stops transfers regains releases destroyed : Event B
  provided : Slot → B → Event B
  write_done : Bool → ℕ → B → ℤ → Event B
  connect_done shutdown_done : Bool → ℕ → ℤ → Event B
  info_done : Bool → ℕ → List ℕ → Event B
  ipv4_done : Bool → ℕ → List ℕ → ℤ → Event B
  ipv6_done : Bool → ℕ → List (List ℕ) → ℤ → Event B

-- The object, and the info that was taken out.
abbrev pub World : Type 0 → Type 0
World B = StreamByProvider B × Option Info

module _ {B : Type 0} where
  abbrev pub with_held : Option Info → Option (StreamByProvider B) → Option (World B)
  with_held held o = o >>= λ s. some (s, held)

  -- Without the result of `timeout`.
  abbrev pub state_of : Option (StreamByProvider B × Bool) → Option (StreamByProvider B)
  state_of o = o >>= λ r. some r.0

  abbrev pub put_back : Option Info → StreamByProvider B → Option (World B)
  put_back none s = none
  put_back (some info) s = with_held none (regain info s)

  abbrev pub take_out : Option Info → StreamByProvider B → Option (World B)
  take_out none s = transfer s >>= λ r. some (r.0, some r.1)
  take_out (some info) s = none

  abbrev pub handle : B → Event B → StreamByProvider B → Option Info → Option (World B)
  handle empty (writes ptr buf cb) s held = with_held held (write_ ptr buf cb s)
  handle empty (connects ptr target cb) s held = with_held held (connect_ ptr target cb s)
  handle empty (connects_inet6 ptr name port cb) s held =
      with_held held (connect_inet6 ptr name port cb s)
  handle empty (looks_up kind ptr name cb) s held = with_held held (getaddrinfo kind ptr name cb s)
  handle empty (shuts_down ptr cb) s held = with_held held (shutdown ptr cb s)
  handle empty (asks_timeout cb time) s held = with_held held (state_of (timeout_ cb time s))
  handle empty starts s held = with_held held (start_read_ s)
  handle empty stops s held = with_held held (stop_read_ s)
  handle empty transfers s held = take_out held s
  handle empty regains s held = put_back held s
  handle empty releases s held = with_held held (release s)
  handle empty destroyed s held = with_held held (destroy s)
  handle empty (provided slot buf) s held = some (provider_calls empty slot buf s, held)
  handle empty (write_done run ptr buf st) s held =
      with_held held (write_callback empty run ptr buf st s)
  handle empty (connect_done run ptr st) s held = with_held held (connect_callback run ptr st s)
  handle empty (shutdown_done run ptr st) s held = with_held held (shutdown_callback run ptr st s)
  handle empty (info_done run ptr found) s held =
      with_held held (getaddrinfo_callback run ptr found s)
  handle empty (ipv4_done run ptr found st) s held =
      with_held held (getaddrinfoipv4_callback run ptr found st s)
  handle empty (ipv6_done run ptr found st) s held =
      with_held held (getaddrinfoipv6_callback run ptr found st s)

  abbrev pub handle_all : B → List (Event B) → World B → Option (World B)
  handle_all empty [] w = some w
  handle_all empty (e ∷ es) (s, held) = handle empty e s held >>= handle_all empty es

-- A property of the result, if there is one.
module _ {ℓ κ} {A : Type ℓ} (P : A → Type κ) where
  abbrev pub Holds : Option A → Type κ
  Holds none = Unit
  Holds (some a) = P a

  pub bind-Holds {μ} :
      {C : Type μ} (o : Option C) (k : C → Option A)
      → ((c : C) → o ≡ some c → Holds (k c))
      → Holds (o >>= k)
  bind-Holds none k h = tt
  bind-Holds (some c) k h = h c refl

  pub assert-Holds : (b : Bool) (o : Option A) → (b ≡ true → Holds o) → Holds (assert b >> o)
  assert-Holds true o h = h refl
  assert-Holds false o h = tt

  pub Holds-some : (o : Option A) (a : A) → Holds o → o ≡ some a → P a
  Holds-some o a h e = subst Holds e h
