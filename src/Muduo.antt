-- ===== src/Muduo.antt =====
-- What the server calls of muduo, which is a library and stays a parameter: the receive buffer
-- (muduo/net/Buffer.h) and the byte order functions (muduo/net/Endian.h). The laws are the
-- documented behaviour; `listed` meets them with a plain list of bytes.
use pets_server_linux.Common.{
  ℕ, ◌+◌, ◌*◌, ◌/◌, ◌%◌, ◌^◌, ◌≤◌, ◌<◌, ◌≡◌, refl, List, [], ◌++◌, length, drop, arith,
}

pub record Net : Type 1 where
  pub Buffer : Type 0
  pub empty : Buffer
  pub readable_bytes : Buffer → ℕ
  prependable_bytes : Buffer → ℕ
  -- The readable bytes, which start at the pointer that `peek` returns.
  pub peek : Buffer → List ℕ
  pub retrieve : Buffer → ℕ → Buffer
  pub append : Buffer → List ℕ → Buffer
  pub prepend : Buffer → List ℕ → Buffer
  pub network_to_host32 : ℕ → ℕ
  pub host_to_network32 : ℕ → ℕ
  pub readable_bytes_lem : (b : Buffer) → readable_bytes b ≡ length (peek b)
  pub peek-empty : peek empty ≡ []
  pub peek-retrieve :
      (b : Buffer) (n : ℕ) → n ≤ readable_bytes b → peek (retrieve b n) ≡ drop n (peek b)
  pub peek-append : (b : Buffer) (xs : List ℕ) → peek (append b xs) ≡ peek b ++ xs
  pub peek-prepend :
      (b : Buffer) (xs : List ℕ)
      → length xs ≤ prependable_bytes b
      → peek (prepend b xs) ≡ xs ++ peek b
  pub prependable-empty : 8 ≤ prependable_bytes empty
  pub prependable-append :
      (b : Buffer) (xs : List ℕ) → 8 ≤ prependable_bytes b → 8 ≤ prependable_bytes (append b xs)
  pub host_to_network32-lt : (w : ℕ) → w < 2 ^ 32 → host_to_network32 w < 2 ^ 32
  pub network_to_host32-host_to_network32 :
      (w : ℕ) → w < 2 ^ 32 → network_to_host32 (host_to_network32 w) ≡ w

-- The bytes of a 32-bit word in reverse order.
abbrev swap32 : ℕ → ℕ
swap32 w = w % 256 * 2 ^ 24 + w / 256 % 256 * 2 ^ 16 + w / 2 ^ 16 % 256 * 256 + w / 2 ^ 24 % 256

pub swap32-lt : (w : ℕ) → w < 2 ^ 32 → swap32 w < 2 ^ 32
swap32-lt w h = omega arith

pub swap32-swap32 : (w : ℕ) → w < 2 ^ 32 → swap32 (swap32 w) ≡ w
swap32-swap32 w h = omega arith

-- The assumptions hold of a buffer that is its list of readable bytes, on a little-endian host.
abbrev pub listed : Net
listed = record {
  Buffer = List ℕ;
  empty = [];
  readable_bytes = length;
  prependable_bytes = λ _. 8;
  peek = λ b. b;
  retrieve = λ b n. drop n b;
  append = ◌++◌;
  prepend = λ b xs. xs ++ b;
  network_to_host32 = swap32;
  host_to_network32 = swap32;
  readable_bytes_lem = λ b. refl;
  peek-empty = refl;
  peek-retrieve = λ b n h. refl;
  peek-append = λ b xs. refl;
  peek-prepend = λ b xs h. refl;
  prependable-empty = omega arith;
  prependable-append = λ b xs h. h;
  host_to_network32-lt = swap32-lt;
  network_to_host32-host_to_network32 = swap32-swap32;
}
