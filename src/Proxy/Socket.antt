-- ===== src/Proxy/Socket.antt =====
-- What `_send_control` sends, and how `_recv_exactly` reads the answer: a length of four bytes and a
-- body, over a stream socket. Bytes are numbers below 256.
pub mod Framing
use neutron_local_services_p.Base.{
  ℕ, zero, suc, ◌+◌, ◌-◌, ◌*◌, ◌≤◌, ◌<◌, ◌≡◌, refl, ◌∙◌, ap, sym, Bool, true, false, Option, none,
  some, List, [], ◌∷◌, ◌++◌, leb, if◌then◌else◌, length, length-append, Bool-cases, inl, inr, arith,
}
use Prim.Native.Nat.{◌/◌, ◌%◌, ◌^◌}
use mathlib.Core.List.{append-nil, append_assoc}

abbrev pub take : ℕ → List ℕ → List ℕ
take zero xs = []
take (suc n) [] = []
take (suc n) (x ∷ xs) = x ∷ take n xs

abbrev pub drop : ℕ → List ℕ → List ℕ
drop zero xs = xs
drop (suc n) [] = []
drop (suc n) (x ∷ xs) = drop n xs

-- What `_recv_exactly` comes to: the bytes, with what is still to come; the `IOError`; or no fuel.
pub data Received : Type 0 where
  received : List ℕ → List ℕ → Received
  eof out_of_fuel : Received

-- `s.recv(wanted)` gives at least one byte where one is to come, and at most as many as have arrived.
abbrev pub chunk_size : ℕ → ℕ → ℕ
chunk_size wanted arrived = if leb wanted (suc arrived) then wanted else suc arrived

-- The loop; `arrivals` says how much has arrived at each `recv`, and the last list is to come.
unfoldable pub recv_loop : ℕ → (ℕ → ℕ) → ℕ → List ℕ → List ℕ → Received
recv_loop zero arrivals n out coming =
    if leb n (length out) then received out coming else out_of_fuel
recv_loop (suc fuel) arrivals n out [] = if leb n (length out) then received out [] else eof
recv_loop (suc fuel) arrivals n out (b ∷ coming) =
    let size = chunk_size (n - length out) (arrivals fuel) in
    let rest = recv_loop fuel arrivals n (out ++ take size (b ∷ coming)) (drop size (b ∷ coming)) in
    if leb n (length out) then received out (b ∷ coming) else rest

-- `_recv_exactly`: each round gives at least one byte, so there are at most `n` rounds.
unfoldable pub recv_exactly : (ℕ → ℕ) → ℕ → List ℕ → Received
unfolding recv_loop
recv_exactly arrivals n coming = recv_loop n arrivals n [] coming

-- `struct.pack('>I', n)`, for an `n` that four bytes hold, and `struct.unpack`.
unfoldable pub pack : ℕ → List ℕ
pack n = n / 16777216 % 256 ∷ n / 65536 % 256 ∷ n / 256 % 256 ∷ n % 256 ∷ []

unfoldable pub unpack : List ℕ → ℕ
unpack [] = 0
unpack (b ∷ bytes) = b * 256 ^ length bytes + unpack bytes

-- A request or an answer with its length before it, `none` where `struct.pack` raises.
unfoldable pub frame : List ℕ → Option (List ℕ)
unfolding pack
frame body = if leb (2 ^ 32) (length body) then none else some (pack (length body) ++ body)

-- Once the header is read.
abbrev pub read_body : (ℕ → ℕ) → Received → Received
read_body late (received hdr rest) = recv_exactly late (unpack hdr) rest
read_body late eof = eof
read_body late out_of_fuel = out_of_fuel

-- The header and the body of an answer.
unfoldable pub read_answer : (ℕ → ℕ) → (ℕ → ℕ) → List ℕ → Received
unfolding recv_exactly unpack
read_answer early late coming = read_body late (recv_exactly early 4 coming)
