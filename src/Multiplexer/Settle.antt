-- ===== src/Multiplexer/Settle.antt =====
-- The outcome of a connection that a client has asked for. ACCEPT and REJECT of the other end, the
-- timeout, the callback of the write and `closeStream` can all end the wait, in any order.

use hula.Common.{
  ℕ, ◌≡◌, ◌≢◌, refl, sym, ap, ◌∙◌, ℤ, pos, negsuc, is_negative, Bool, Option, none, some, List, [],
  ◌∷◌, ◌++◌, ◌==◌, ==_refl, if◌then◌else◌, ◌>>=◌, Option-cases, inl, inr, arith, append-nil,
}
use hula.Common.Maps.{find, find-erase}
use hula.Buffer.{SharedMem}
use hula.Packet.{accept_connection, reject_connection}
use hula.Multiplexer.{Effect, connected, Provider}
use hula.Multiplexer.Connect.{
  settle_found, settle, new_connection_write_callback, new_connection_timeout_callback,
}
use hula.Multiplexer.Dispatch.{dispatch_packet, dispatch_known, dispatch_unknown}

-- What can end the wait for a connection.
pub data Completion (B : Type 0) : Type 0 where
  accepted : B → Completion B
  rejected : B → Completion B
  timed_out : Completion B
  write_done : ℤ → Completion B

-- The status that it gives, if it ends the wait.
abbrev pub status_of : {B : Type 0} → Completion B → Option ℤ
status_of (accepted b) = some (pos 0)
status_of (rejected b) = some (negsuc 0)
status_of timed_out = some (negsuc 0)
status_of (write_done status) = if is_negative status then some (negsuc 0) else none

abbrev first_of : Option ℤ → Option ℤ → Option ℤ
first_of none later = later
first_of (some status) later = some status

-- The status of the first of them that ends the wait.
abbrev pub first_status : {B : Type 0} → List (Completion B) → Option ℤ
first_status [] = none
first_status (c ∷ cs) = first_of (status_of c) (first_status cs)

module _ {B : Type 0} where
  settle-none :
      (id : ℕ) (status : ℤ) (p : Provider B)
      → find id p.client_wait_connection ≡ none
      → settle id status p ≡ p
  unfolding settle
  settle-none id status p e = rw e

  settle-some :
      (id cb : ℕ) (status : ℤ) (p : Provider B)
      → find id p.client_wait_connection ≡ some cb
      → settle id status p ≡ settle_found (some cb) id status p
  unfolding settle
  settle-some id cb status p e = rw e

  pub settle-allocator :
      (id : ℕ) (status : ℤ) (p : Provider B) → (settle id status p).allocator ≡ p.allocator
  unfolding settle
  settle-allocator id status p = elim (Option-cases (find id p.client_wait_connection)) [
    | inl e ↦ rw e
    | inr (cb, e) ↦ rw e
  ]

module _ (mem : SharedMem) (little : Bool) where
  open mem use {Buf}

  -- What the provider does on it.
  abbrev pub complete : ℕ → Completion Buf → Provider Buf → Option (Provider Buf)
  complete id (accepted b) p = dispatch_packet mem little 0 (b, accept_connection, id) p
  complete id (rejected b) p = dispatch_packet mem little 0 (b, reject_connection, id) p
  complete id timed_out p = some (new_connection_timeout_callback id p)
  complete id (write_done status) p = some (new_connection_write_callback id status p)

  abbrev pub complete_all : ℕ → List (Completion Buf) → Provider Buf → Option (Provider Buf)
  complete_all id [] p = some p
  complete_all id (c ∷ cs) p = complete id c p >>= complete_all id cs

  abbrev settled : ℕ → Option ℤ → Provider Buf → Provider Buf
  settled id none p = p
  settled id (some status) p = settle id status p

  dispatch_accept :
      (id : ℕ) (b : Buf) (p : Provider Buf)
      → find id p.allocator ≢ some none
      → dispatch_packet mem little 0 (b, accept_connection, id) p ≡ some (settle id (pos 0) p)
  unfolding dispatch_packet dispatch_known dispatch_unknown
  dispatch_accept id b p there = elim (Option-cases (find id p.allocator)) [
    | inl e ↦ rw e
    | inr (none, e) ↦ absurd (there e)
    | inr (some kid, e) ↦ rw e
  ]

  dispatch_reject :
      (id : ℕ) (b : Buf) (p : Provider Buf)
      → find id p.allocator ≢ some none
      → dispatch_packet mem little 0 (b, reject_connection, id) p ≡ some (settle id (negsuc 0) p)
  unfolding dispatch_packet dispatch_known dispatch_unknown
  dispatch_reject id b p there = elim (Option-cases (find id p.allocator)) [
    | inl e ↦ rw e
    | inr (none, e) ↦ absurd (there e)
    | inr (some kid, e) ↦ rw e
  ]

  complete-settled :
      (id : ℕ) (c : Completion Buf) (p : Provider Buf)
      → find id p.allocator ≢ some none
      → complete id c p ≡ some (settled id (status_of c) p)
  unfolding new_connection_write_callback new_connection_timeout_callback
  complete-settled id (accepted b) p there = dispatch_accept id b p there
  complete-settled id (rejected b) p there = dispatch_reject id b p there
  complete-settled id timed_out p there = refl
  complete-settled id (write_done (pos n)) p there = refl
  complete-settled id (write_done (negsuc n)) p there = refl

  settled-none :
      (id : ℕ) (status : Option ℤ) (p : Provider Buf)
      → find id p.client_wait_connection ≡ none
      → settled id status p ≡ p
  settled-none id none p e = refl
  settled-none id (some status) p e = settle-none id status p e

  -- Once the wait is over, nothing happens any more.
  complete_all-none :
      (id : ℕ) (cs : List (Completion Buf)) (p : Provider Buf)
      → find id p.allocator ≢ some none
      → find id p.client_wait_connection ≡ none
      → complete_all id cs p ≡ some p
  complete_all-none id [] p there e = refl
  complete_all-none id (c ∷ cs) p there e =
      ap (λ o. o >>= complete_all id cs)
        (complete-settled id c p there ∙ ap some (settled-none id (status_of c) p e))
      ∙ complete_all-none id cs p there e

  -- The state after the wait of `cb` has ended with a status, or goes on.
  abbrev outcome : ℕ → ℕ → Option ℤ → Provider Buf → Provider Buf
  outcome id cb none p = p
  outcome id cb (some status) p = settle_found (some cb) id status p

  find-outcome :
      (id cb : ℕ) (status : ℤ) (p : Provider Buf)
      → find id (settle_found (some cb) id status p).client_wait_connection ≡ none
  find-outcome id cb status p = find-erase id id p.client_wait_connection ∙ rw (==_refl id)

  complete_all-outcome :
      (id cb : ℕ) (cs : List (Completion Buf)) (p : Provider Buf)
      → find id p.allocator ≢ some none
      → find id p.client_wait_connection ≡ some cb
      → complete_all id cs p ≡ some (outcome id cb (first_status cs) p)
  complete_all-outcome id cb [] p there e = refl
  complete_all-outcome id cb (c ∷ cs) p there e = elim (Option-cases (status_of c)) [
    | inl s ↦
        ap (λ o. o >>= complete_all id cs) (complete-settled id c p there)
        ∙ rw s (complete_all-outcome id cb cs p there e)
    | inr (status, s) ↦
        ap (λ o. o >>= complete_all id cs)
          (complete-settled id c p there
            ∙ ap (λ o. some (settled id o p)) s
            ∙ ap some (settle-some id cb status p e))
        ∙ rw s (
            complete_all-none id cs (settle_found (some cb) id status p) there
              (find-outcome id cb status p))
  ]

  -- The calls of the callback, and the entry of the table, for a wait that ended, or goes on.
  abbrev pub callback_calls : ℕ → Option ℤ → List (Effect Buf)
  callback_calls cb none = []
  callback_calls cb (some status) = connected cb status ∷ []

  abbrev pub still_waiting : ℕ → Option ℤ → Option ℕ
  still_waiting cb none = some cb
  still_waiting cb (some status) = none

  outcome-log :
      (id cb : ℕ) (s : Option ℤ) (p : Provider Buf)
      → (outcome id cb s p).log ≡ p.log ++ callback_calls cb s
  outcome-log id cb none p = sym (append-nil p.log)
  outcome-log id cb (some status) p = refl

  outcome-waiting :
      (id cb : ℕ) (s : Option ℤ) (p : Provider Buf) (j : ℕ)
      → find id p.client_wait_connection ≡ some cb
      → find j (outcome id cb s p).client_wait_connection
        ≡ (if id == j then still_waiting cb s else find j p.client_wait_connection)
  outcome-waiting id cb none p j e = ground (arith, e)
  outcome-waiting id cb (some status) p j e = find-erase id j p.client_wait_connection

  -- A connection waits, with callback `cb`, under an id that is not a null object. Then any sequence
  -- of ACCEPT and REJECT packets for that id, of timeouts and of callbacks of the write runs through,
  -- and it calls `cb` once, with the status of the first of them that ends a wait, or never if none
  -- does; the table of waiting connections loses this entry then, and keeps all others.
  pub complete_all-calls_once :
      (id cb : ℕ) (cs : List (Completion Buf)) (p : Provider Buf)
      → find id p.allocator ≢ some none
      → find id p.client_wait_connection ≡ some cb
      → (q : Provider Buf) × (complete_all id cs p ≡ some q)
        × (q.log ≡ p.log ++ callback_calls cb (first_status cs))
        × ((j : ℕ)
            → find j q.client_wait_connection ≡ (
                if id == j
                then still_waiting cb (first_status cs)
                else find j p.client_wait_connection))
  complete_all-calls_once id cb cs p there e = (
    outcome id cb (first_status cs) p,
    complete_all-outcome id cb cs p there e,
    outcome-log id cb (first_status cs) p,
    λ j. outcome-waiting id cb (first_status cs) p j e,
  )
