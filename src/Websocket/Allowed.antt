-- ===== src/Websocket/Allowed.antt =====
-- Operations on an object that are allowed one after the other, and what they come to.
use hula.Common.{
  ℕ, suc, ◌+◌, ◌≡◌, true, false, Option, none, some, List, [], ◌∷◌, ◌++◌, length, All,
}
use hula.Buffer.{SharedMem}
use hula.Endian.{IsByte}
use hula.Websocket.{WebsocketOpcode, form_frame_header}
use hula.Websocket.Session.{WebSocketCommon, may_send, end_state}
use hula.Websocket.Closing.{
  Operation, arrives, written, sends, sends_text, pings, pongs, ends, closes, step,
}
use hula.Websocket.Progress.{Modest}

abbrev IsSome : {A : Type 0} → Option A → Type 0
IsSome none = ⊥
IsSome (some a) = Unit

module _ (mem : SharedMem) where
  open mem use {Buf, bytes, copy}

  -- The bytes of a read do not announce a payload near 2^64; what is sent may be sent.
  abbrev pub Allowed : Operation Buf → WebSocketCommon Buf → Type 0
  Allowed (arrives b status) w =
      All IsByte (bytes w.remain ++ bytes b)
      × Modest (suc (length (bytes w.remain) + length (bytes b))) (length (bytes w.remain))
          (bytes w.remain ++ bytes b)
  Allowed (written n status) w = Unit
  Allowed (sends b draw) w = may_send w.state w.recieve_end ≡ true
  Allowed (sends_text t draw) w = may_send w.state w.recieve_end ≡ true
  Allowed (pings draw) w = may_send w.state w.recieve_end ≡ true
  Allowed (pongs draw) w = may_send w.state w.recieve_end ≡ true
  Allowed (ends code reason draw) w = IsSome (end_state w.state w.recieve_end)
  Allowed closes w = Unit

  abbrev pub AfterStep : Option (WebSocketCommon Buf) → (WebSocketCommon Buf → Type 0) → Type 0
  AfterStep none P = Unit
  AfterStep (some w) P = P w

  -- Each operation is allowed in the state that those before it have left.
  abbrev pub AllAllowed : List (Operation Buf) → WebSocketCommon Buf → Type 0
  AllAllowed [] w = Unit
  AllAllowed (o ∷ os) w = Allowed o w × AfterStep (step mem o w) (λ v. AllAllowed os v)

  abbrev Forms : WebsocketOpcode → Type 0
  Forms op =
      (mask : Option (ℕ × ℕ × ℕ × ℕ)) (b : Buf)
      → (x : Buf × Buf) × (form_frame_header mem true op mask b false false false ≡ some x)
