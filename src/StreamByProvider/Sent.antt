-- ===== src/StreamByProvider/Sent.antt =====
-- What any events leave in the log of a stream object: nothing is sent after `end`.

use hula.Common.{ℕ, ◌≡◌, refl, ◌∙◌, Option, none, some, some_cancel, not_some, subst, List, [], ◌∷◌}
use hula.StreamByProvider.{
  Slot, StreamByProvider, check_socket, Info, is_null, write_, connect_, connect_inet6, stop_read_,
  transfer, regain, provider_calls, read_slot, error_slot, close_slot, end_slot, start_write_slot,
  stop_write_slot, write_callback, connect_callback, shutdown_callback, getaddrinfo_callback,
  getaddrinfoipv4_callback, getaddrinfoipv6_callback, register_callback, new_stream,
}
use hula.StreamByProvider.Events.{
  asks_timeout, Event, writes, connects, connects_inet6, looks_up, shuts_down, starts, stops,
  transfers, regains, releases, destroyed, provided, write_done, connect_done, shutdown_done,
  info_done, ipv4_done, ipv6_done, World, handle, handle_all, with_held, put_back, take_out, Holds,
  bind-Holds, assert-Holds, Holds-some,
}
use hula.StreamByProvider.Ending.{
  timeout_-KeepsQuiet, Quiet, IsQuiet, KeepsQuiet, check-Holds, ask_with-KeepsQuiet,
  start_read_-KeepsQuiet, stop_read_-KeepsQuiet, getaddrinfo-KeepsQuiet, release-KeepsQuiet,
  destroy-KeepsQuiet, complete-KeepsQuiet, shutdown-KeepsQuiet, here-Told, back-Tells,
}

module _ {B : Type 0} where
  stop_read_-info :
      (s : StreamByProvider B) → Holds (λ (t : StreamByProvider B). t.info ≡ s.info) (stop_read_ s)
  unfolding stop_read_
  stop_read_-info s = bind-Holds _ (check_socket s) _ (λ checked e. refl)

  transfer-KeepsQuiet :
      (p i : ℕ) (s : StreamByProvider B)
      → IsQuiet p i (s, none)
      → Holds (λ (r : StreamByProvider B × Info). IsQuiet p i (r.0, some r.1)) (transfer s)
  unfolding transfer
  transfer-KeepsQuiet p i s h = check-Holds _ s _ (λ info pr id e f g.
      bind-Holds _ (stop_read_ s) _ (λ t k.
        let (q, l) = Holds-some _ (stop_read_ s) t (stop_read_-KeepsQuiet p i s none h) k in
        let same = Holds-some _ (stop_read_ s) t (stop_read_-info s) k in
        ((refl, q), here-Told p i info t.info none _ (same ∙ e) l)))

  take_out-KeepsQuiet :
      (p i : ℕ) (held : Option Info) (s : StreamByProvider B)
      → IsQuiet p i (s, held)
      → Holds (IsQuiet p i) (take_out held s)
  take_out-KeepsQuiet p i (some info) s h = tt
  take_out-KeepsQuiet p i none s h =
      bind-Holds _ (transfer s) _
        (λ r e. Holds-some _ (transfer s) r (transfer-KeepsQuiet p i s h) e)

  with_held-KeepsQuiet :
      (p i : ℕ) (held : Option Info) (o : Option (StreamByProvider B))
      → KeepsQuiet p i held o
      → Holds (IsQuiet p i) (with_held held o)
  with_held-KeepsQuiet p i held none h = tt
  with_held-KeepsQuiet p i held (some s) h = h

  put_back-KeepsQuiet :
      (p i : ℕ) (held : Option Info) (s : StreamByProvider B)
      → IsQuiet p i (s, held)
      → Holds (IsQuiet p i) (put_back held s)
  unfolding regain
  put_back-KeepsQuiet p i none s h = tt
  put_back-KeepsQuiet p i (some info) s (q, h) = with_held-KeepsQuiet p i none (regain info s) (
      assert-Holds _ (is_null s.info) _ (λ e. bind-Holds _ info.provider _ (λ provider f.
        bind-Holds _ info.id _
          (λ id g. start_read_-KeepsQuiet p i _ none ((refl, q), back-Tells p i s.info info _ h)))))

  provider_calls-IsQuiet :
      (p i : ℕ) (empty : B) (slot : Slot) (buf : B) (s : StreamByProvider B) (held : Option Info)
      → IsQuiet p i (s, held)
      → IsQuiet p i (provider_calls empty slot buf s, held)
  unfolding provider_calls
  provider_calls-IsQuiet p i empty read_slot buf s held (q, h) = ((refl, q), h)
  provider_calls-IsQuiet p i empty error_slot buf s held (q, h) = ((refl, q), h)
  provider_calls-IsQuiet p i empty close_slot buf s held (q, h) = ((refl, q), h)
  provider_calls-IsQuiet p i empty end_slot buf s held (q, h) = ((refl, q), h)
  provider_calls-IsQuiet p i empty start_write_slot buf s held (q, h) = ((refl, q), h)
  provider_calls-IsQuiet p i empty stop_write_slot buf s held (q, h) = ((refl, q), h)

  handle-IsQuiet :
      (p i : ℕ) (empty : B) (e : Event B) (s : StreamByProvider B) (held : Option Info)
      → IsQuiet p i (s, held)
      → Holds (IsQuiet p i) (handle empty e s held)
  unfolding write_ connect_ connect_inet6 write_callback connect_callback shutdown_callback
      getaddrinfo_callback getaddrinfoipv4_callback getaddrinfoipv6_callback
  handle-IsQuiet p i empty transfers s held h = take_out-KeepsQuiet p i held s h
  handle-IsQuiet p i empty regains s held h = put_back-KeepsQuiet p i held s h
  handle-IsQuiet p i empty (provided slot buf) s held h =
      provider_calls-IsQuiet p i empty slot buf s held h
  handle-IsQuiet p i empty (writes ptr buf x) s held h =
      with_held-KeepsQuiet p i held _ (ask_with-KeepsQuiet p i _ _ s held refl h)
  handle-IsQuiet p i empty (connects ptr target x) s held h =
      with_held-KeepsQuiet p i held _ (ask_with-KeepsQuiet p i _ _ s held refl h)
  handle-IsQuiet p i empty (connects_inet6 ptr name port x) s held h =
      with_held-KeepsQuiet p i held _ (ask_with-KeepsQuiet p i _ _ s held refl h)
  handle-IsQuiet p i empty (looks_up kind ptr name x) s held h =
      with_held-KeepsQuiet p i held _ (getaddrinfo-KeepsQuiet p i kind ptr name x s held h)
  handle-IsQuiet p i empty (shuts_down ptr x) s held h =
      with_held-KeepsQuiet p i held _ (shutdown-KeepsQuiet p i ptr x s held h)
  handle-IsQuiet p i empty (asks_timeout x time) s held h =
      with_held-KeepsQuiet p i held _ (timeout_-KeepsQuiet p i x time s held h)
  handle-IsQuiet p i empty starts s held h =
      with_held-KeepsQuiet p i held _ (start_read_-KeepsQuiet p i s held h)
  handle-IsQuiet p i empty stops s held h =
      with_held-KeepsQuiet p i held _ (stop_read_-KeepsQuiet p i s held h)
  handle-IsQuiet p i empty releases s held h =
      with_held-KeepsQuiet p i held _ (release-KeepsQuiet p i s held h)
  handle-IsQuiet p i empty destroyed s held h =
      with_held-KeepsQuiet p i held _ (destroy-KeepsQuiet p i s held h)
  handle-IsQuiet p i empty (write_done run ptr buf st) s held h =
      with_held-KeepsQuiet p i held _ (complete-KeepsQuiet p i _ run ptr _ _ s held h)
  handle-IsQuiet p i empty (connect_done run ptr st) s held h =
      with_held-KeepsQuiet p i held _ (complete-KeepsQuiet p i _ run ptr _ _ s held h)
  handle-IsQuiet p i empty (shutdown_done run ptr st) s held h =
      with_held-KeepsQuiet p i held _ (complete-KeepsQuiet p i _ run ptr _ _ s held h)
  handle-IsQuiet p i empty (info_done run ptr found) s held h =
      with_held-KeepsQuiet p i held _ (complete-KeepsQuiet p i _ run ptr _ _ s held h)
  handle-IsQuiet p i empty (ipv4_done run ptr found st) s held h =
      with_held-KeepsQuiet p i held _ (complete-KeepsQuiet p i _ run ptr _ _ s held h)
  handle-IsQuiet p i empty (ipv6_done run ptr found st) s held h =
      with_held-KeepsQuiet p i held _ (complete-KeepsQuiet p i _ run ptr _ _ s held h)

  handle_all-IsQuiet :
      (p i : ℕ) (empty : B) (es : List (Event B)) (w : World B)
      → IsQuiet p i w
      → Holds (IsQuiet p i) (handle_all empty es w)
  handle_all-IsQuiet p i empty [] w h = h
  handle_all-IsQuiet p i empty (e ∷ es) (s, held) h = bind-Holds _ (handle empty e s held) _ (λ v f.
      handle_all-IsQuiet p i empty es v
        (Holds-some _ (handle empty e s held) v (handle-IsQuiet p i empty e s held h) f))

  new_stream-IsQuiet :
      (p i provider : ℕ) (id : Option ℕ) (new : StreamByProvider B)
      → new_stream provider id ≡ some new
      → IsQuiet p i (new, none)
  unfolding new_stream register_callback check_socket
  new_stream-IsQuiet p i provider none new e = absurd (not_some e)
  new_stream-IsQuiet p i provider (some id) new e =
      subst (λ s. IsQuiet p i (s, none)) (some_cancel e)
        ((refl, (refl, (refl, (refl, (refl, (refl, tt)))))), λ f g. refl)

  -- Take a new stream object, and any events that run without a failed assertion: `_write`, `connect`,
  -- the look-ups, `shutdown`, `timeout`, `start_read`, `stop_read`, `transfer`, `regain`, `release`,
  -- the destructor, and calls of the provider with any result. Then for each stream of each provider, after `end` was called on it neither
  -- `write` nor `connect` is called on it, nor `end` again, also when the stream has been given
  -- away and taken back.
  pub handle_all-Quiet :
      (provider : ℕ) (id : Option ℕ) (empty : B) (es : List (Event B)) (p i : ℕ)
      (new s : StreamByProvider B) (held : Option Info)
      → new_stream provider id ≡ some new
      → handle_all empty es (new, none) ≡ some (s, held)
      → Quiet p i s.log
  handle_all-Quiet provider id empty es p i new s held e f =
      (Holds-some _ _ (s, held)
        (handle_all-IsQuiet p i empty es (new, none) (new_stream-IsQuiet p i provider id new e))
        f).0
