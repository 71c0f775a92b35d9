-- ===== src/Query/Leases.antt =====
-- The leases that one tenant holds over all replicas.
use bu_vi.Base.{
  ℕ, ◌≤◌, ◌<◌, ◌≡◌, refl, String, Bool, true, false, List, [], ◌∷◌, ltb, arith, length, all,
  =s_refl, ◌↔◌,
}
use bu_vi.Query.Concurrency.{Lease, prune, release, acquire}

length-release : (id : String) (ls : List Lease) → length (release id ls) ≤ length ls
unfolding release
length-release id [] = omega arith
length-release id (l ∷ ls) = ground (arith, length-release id ls)

length-prune : (now : ℕ) (ls : List Lease) → length (prune now ls) ≤ length ls
unfolding prune
length-prune now [] = omega arith
length-prune now (l ∷ ls) = ground (arith, length-prune now ls)

unfoldable pub is_live : ℕ → Lease → Bool
is_live now l = ltb now l.expires_at

all-prune : (now : ℕ) (ls : List Lease) → all (is_live now) (prune now ls) ≡ true
unfolding prune is_live
all-prune now [] = refl
all-prune now (l ∷ ls) = ground (arith, all-prune now ls)

all-release :
    (p : Lease → Bool) (id : String) (ls : List Lease)
    → all p ls ≡ true
    → all p (release id ls) ≡ true
unfolding release
all-release p id [] h = refl
all-release p id (l ∷ ls) h = ground (arith, all-release p id ls)

release_idem : (id : String) (ls : List Lease) → release id (release id ls) ≡ release id ls
unfolding release
release_idem id [] = refl
release_idem id (l ∷ ls) = ground (arith, release_idem id ls)

-- The script never leaves a tenant more leases than the limit if it had no more before, whichever
-- replicas call it and however the clock runs; and where the lease's time is positive, every lease
-- that it leaves ends after the moment it was called.
pub acquire-bounded :
    (limit lease_ms now : ℕ) (id : String) (ls : List Lease)
    → length ls ≤ limit
    → 0 < lease_ms
    → (length (acquire limit lease_ms now id ls).1 ≤ limit)
      × (all (is_live now) (acquire limit lease_ms now id ls).1 ≡ true)
unfolding acquire is_live
acquire-bounded limit lease_ms now id ls h positive =
    let live = prune now ls in
    let a = length-prune now ls in
    let b = length-release id live in
    let c = all-prune now ls in let d = all-release (is_live now) id live c in ground arith

-- A query that gets a lease and gives it back leaves the tenant the leases of the other queries that
-- had not ended when it came.
pub release-acquire :
    (limit lease_ms now : ℕ) (id : String) (ls : List Lease)
    → (acquire limit lease_ms now id ls).0 ≡ true
    → release id (acquire limit lease_ms now id ls).1 ≡ release id (prune now ls)
unfolding acquire release
release-acquire limit lease_ms now id ls h =
    let a = release_idem id (prune now ls) in let b = =s_refl id in ground arith

-- A query is refused exactly where `limit` of the tenant's leases had not ended when it came.
pub acquire-refused_iff :
    (limit lease_ms now : ℕ) (id : String) (ls : List Lease)
    → ((acquire limit lease_ms now id ls).0 ≡ false) ↔ (limit ≤ length (prune now ls))
unfolding acquire
acquire-refused_iff limit lease_ms now id ls = (λ h. ground arith, λ h. ground arith)
