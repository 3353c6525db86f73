-- ===== src/Prelude/Streams.antt =====
-- A stream of bytes to a peer, which the connections of the connectors read and write.
use michael.Prelude.{ℕ, ◌+◌, ◌≤◌, Bool, true, ◌++◌, Option, some, ◌≡◌, length}
use michael.Prelude.Text.{Bytes}

-- The stream under a connection, `S: AsyncRead + AsyncWrite`: `read_buf` gives the bytes that have
-- arrived, none of them at the end of the stream, and `none` for an error; a write and a flush say
-- whether they succeeded.
pub record AsyncStream (S : Type 0) : Type 0 where
  pub read_buf : S → S × Option Bytes
  pub write_all : S → Bytes → S × Bool
  pub flush : S → S × Bool
  pub shutdown : S → S

-- The bytes that a stream has taken so far. Reading and shutting down write nothing.
pub record Transcript {S : Type 0} (io : AsyncStream S) : Type 0 where
  pub written : S → Bytes
  pub read_buf-written : (s : S) → written (io.read_buf s).0 ≡ written s
  pub shutdown-written : (s : S) → written (io.shutdown s) ≡ written s
  pub write_all-written :
      (s : S) (bytes : Bytes)
      → (io.write_all s bytes).1 ≡ true
      → written (io.write_all s bytes).0 ≡ written s ++ bytes
  pub flush-written : (s : S) → written (io.flush s).0 ≡ written s

-- A stream of which a bounded number of bytes is still to be read, whatever is written to it.
pub record FiniteStream {S : Type 0} (io : AsyncStream S) : Type 0 where
  pub pending : S → ℕ
  pub read_buf-pending :
      (s : S) (bytes : Bytes)
      → (io.read_buf s).1 ≡ some bytes
      → pending (io.read_buf s).0 + length bytes ≤ pending s
  pub write_all-pending : (s : S) (bytes : Bytes) → pending (io.write_all s bytes).0 ≤ pending s
  pub flush-pending : (s : S) → pending (io.flush s).0 ≤ pending s
