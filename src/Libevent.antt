-- ===== src/Libevent.antt =====
-- What the servers use of libevent's evbuffers (<event2/buffer.h>), which is not in the repository:
-- a parameter of the model, with the documented behaviour as a record of laws.
use test_code.Prelude.{ℕ, ◌≡◌, [], ◌++◌, length, take, drop}
use test_code.Wire.{Bytes}

pub record Libevent : Type 1 where
  pub Evbuffer : Type 0
  -- the buffers of a new bufferevent
  pub empty : Evbuffer
  -- `evbuffer_get_length(b)`
  pub get_length : Evbuffer → ℕ
  -- `evbuffer_remove(b, p, n)`: the bytes that it copies to `p`, and the buffer after it
  pub remove : Evbuffer → ℕ → Bytes × Evbuffer
  -- `evbuffer_add(b, p, n)`, of the n bytes at `p`
  pub add : Evbuffer → Bytes → Evbuffer

-- `struct bufferevent`, as far as the callbacks see it.
pub record Channel (ev : Libevent) : Type 0 where
  pub input : ev.Evbuffer
  pub output : ev.Evbuffer

-- An evbuffer is a queue of bytes: `add` appends, `remove` takes from the front as many as there
-- are, up to `n`.
pub record IsByteQueue (ev : Libevent) : Type 0 where
  pub bytes : ev.Evbuffer → Bytes
  pub empty_lem : bytes ev.empty ≡ []
  pub get_length_lem : (b : ev.Evbuffer) → ev.get_length b ≡ length (bytes b)
  pub remove_data : (b : ev.Evbuffer) (n : ℕ) → (ev.remove b n).0 ≡ take n (bytes b)
  pub remove_rest : (b : ev.Evbuffer) (n : ℕ) → bytes (ev.remove b n).1 ≡ drop n (bytes b)
  pub add_lem : (b : ev.Evbuffer) (d : Bytes) → bytes (ev.add b d) ≡ bytes b ++ d
