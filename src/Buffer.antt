-- ===== src/Buffer.antt =====
-- ROBuf (include/robuf.h) is `evtls::SharedMem`, a class of a git submodule. The components take it
-- as this interface: a buffer is known by the bytes that it holds, and the operations by what they
-- do to those bytes. A cut outside the buffer is left unspecified.
use hula.Common.{ℕ, ◌+◌, ◌≤◌, ◌≡◌, refl, List, [], ◌++◌, length, take, drop}

pub record SharedMem : Type 1 where
  pub Buf : Type 0
  pub bytes : Buf → List ℕ
  -- ROBuf()
  pub empty : Buf
  -- a + b
  pub join : Buf → Buf → Buf
  -- ROBuf(buf, len, offset)
  pub slice : Buf → ℕ → ℕ → Buf
  -- buf.increaseOffset(n)
  pub skip : Buf → ℕ → Buf
  -- ROBuf(n), filled by the caller
  pub copy : List ℕ → Buf
  pub bytes-empty : bytes empty ≡ []
  pub bytes-join : (a b : Buf) → bytes (join a b) ≡ bytes a ++ bytes b
  pub bytes-slice :
      (b : Buf) (len offset : ℕ)
      → offset + len ≤ length (bytes b)
      → bytes (slice b len offset) ≡ take len (drop offset (bytes b))
  pub bytes-skip : (b : Buf) (n : ℕ) → n ≤ length (bytes b) → bytes (skip b n) ≡ drop n (bytes b)
  pub bytes-copy : (l : List ℕ) → bytes (copy l) ≡ l

-- Buffers that are their bytes: the assumptions can be met.
abbrev pub list_mem : SharedMem
list_mem = record {
  Buf = List ℕ;
  bytes = λ b. b;
  empty = [];
  join = λ a b. a ++ b;
  slice = λ b len offset. take len (drop offset b);
  skip = λ b n. drop n b;
  copy = λ l. l;
  bytes-empty = refl;
  bytes-join = λ a b. refl;
  bytes-slice = λ b len offset h. refl;
  bytes-skip = λ b n h. refl;
  bytes-copy = λ l. refl;
}
