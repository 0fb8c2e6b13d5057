-- ===== src/Cache/Resident.antt =====
-- `cache_resident` against `cache_get` of src/cache/k3_cache.c.
use isky.Prelude.{ℕ, ◌≡◌, ◌≢◌, refl, inl, inr, none, some, ℤ, Option-cases}
use isky.Cache.{Store, K3Cache, key_at, touch, admit, admit_key}
use isky.Cache.Requests.{in_range, record_request, get_at, cache_get, resident_at, cache_resident}

none≢some_slot : {s : ℕ} → none ≢ some s
none≢some_slot h = cc

module _ {W A : Type 0} (st : Store W A) where
  -- An expert that is reported as resident is served from that slot with no read: the disk and the
  -- contents of the slots stay as they are.
  pub cache_resident-cache_get :
      (layer expert : ℤ) (c : K3Cache W A) (s : ℕ)
      → cache_resident c layer expert ≡ some s
      → let x = cache_get st layer expert c in
        (x.1 ≡ some s) × (x.0.world ≡ c.world) × (x.0.arena ≡ c.arena)
  unfolding cache_resident cache_get
  cache_resident-cache_get layer expert c s h = elim (Option-cases (in_range c layer expert)) [
    | inl e ↦ absurd (none≢some_slot (rw (e, resident_at) at h))
    | inr ((l, x), e) ↦
        (let held : c.slot_of (key_at c l x) ≡ some s = rw (e, resident_at) at h in
          rw (e, get_at)
            (unfold admit record_request in
              rw (held, admit_key) (unfold touch in (refl, refl, refl))))
  ]
