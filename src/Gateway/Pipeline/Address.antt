-- ===== src/Gateway/Pipeline/Address.antt =====
-- What a client can make of its own address.
use bu_vi.Base.{
  ℕ, ◌+◌, ◌-◌, ◌≤◌, ◌≡◌, refl, String, false, Option, List, [], ◌∷◌, ◌++◌, arith, ltb, length,
  length-append, ap,
}
use bu_vi.Gateway.Pipeline.Request.{Request, get, peer_of, client_ip_of}

get-append : (xs ys : List String) (i : ℕ) → get (xs ++ ys) (length xs + i) ≡ get ys i
unfolding get
get-append [] ys i = ap (get ys) (omega arith)
get-append (x ∷ xs) ys i =
    let e : length xs + 1 + i - 1 ≡ length xs + i = omega arith in
    ground (arith, get-append xs ys i, ap (get (xs ++ ys)) e)

from_end :
    (xs ys : List String) (n : ℕ)
    → n ≤ length ys
    → get (xs ++ ys) (length (xs ++ ys) - n) ≡ get ys (length ys - n)
from_end xs ys n h =
    let e : length (xs ++ ys) - n ≡ length xs + (length ys - n) =
      omega (arith, length-append xs ys) in
    rw e (get-append xs ys (length ys - n))

-- Behind a number of trusted proxies that each add one address to x-forwarded-for, whatever the
-- client wrote into the header before them changes nothing: the address is read from the entries
-- that the proxies added, also if there are no trusted proxies.
pub client_ip_of-forged :
    (parse : String → Option String) (r : Request) (hops : ℕ) (forged : List String)
    → hops ≤ length r.forwarded
    → client_ip_of parse (record r { forwarded = forged ++ r.forwarded }) hops
      ≡ client_ip_of parse r hops
unfolding client_ip_of peer_of
client_ip_of-forged parse r hops forged h =
    let a : ltb (length (forged ++ r.forwarded)) hops ≡ false =
      ground (arith, length-append forged r.forwarded) in
    let b : ltb (length r.forwarded) hops ≡ false = ground arith in
    rw (a, b, from_end forged r.forwarded hops h) refl
