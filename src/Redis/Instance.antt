-- ===== src/Redis/Instance.antt =====
-- A map of counters has the documented behaviour, so the laws of `Counters` can be met.
use chainmesh.Base.{
  ℕ, ◌+◌, ◌*◌, ◌-◌, ◌^◌, String, ◌≡◌, ◌≢◌, Option, none, some, eq_iff, arith, ltb, if◌then◌else◌,
  Option-cases, inl, inr,
}
use chainmesh.Base.Dict.{Dict, lookup, insert, lookup-insert, lookup-insert_self}
use chainmesh.Redis.{Counter, unexpired, incremented, Counters}

abbrev top : ℕ
top = 2 ^ 63 - 1

unfoldable pub incr : ℕ → String → Dict Counter → Option ℕ × Dict Counter
incr t k m =
    let c = incremented (unexpired t (lookup k m)) in
    if ltb top c.value then (none, m) else (some c.value, insert k c m)

expire_entry : ℕ → String → ℕ → Dict Counter → Option Counter → Dict Counter
expire_entry t k seconds m none = m
expire_entry t k seconds m (some c) =
    insert k (record c { expires = some (t + seconds * 1000000000) }) m

unfoldable pub expire : ℕ → String → ℕ → Dict Counter → Dict Counter
unfolding expire_entry
expire t k seconds m = expire_entry t k seconds m (unexpired t (lookup k m))

insert_other :
    (k j : String) (c : Counter) (m : Dict Counter) → k ≢ j → lookup j (insert k c m) ≡ lookup j m
insert_other k j c m h = rw lookup-insert (ground (arith, eq_iff k j))

pub incr_reply :
    (t : ℕ) (k : String) (m : Dict Counter) (n : ℕ)
    → (incr t k m).0 ≡ some n
    → (n ≡ (incremented (unexpired t (lookup k m))).value)
      × (lookup k (incr t k m).1 ≡ some (incremented (unexpired t (lookup k m))))
unfolding incr
incr_reply t k m n h =
    let c = incremented (unexpired t (lookup k m)) in ground (arith, lookup-insert_self k c m)

pub incr_error :
    (t : ℕ) (k j : String) (m : Dict Counter)
    → (incr t k m).0 ≡ none
    → lookup j (incr t k m).1 ≡ lookup j m
unfolding incr
incr_error t k j m h = ground arith

pub incr_other :
    (t : ℕ) (k j : String) (m : Dict Counter) → k ≢ j → lookup j (incr t k m).1 ≡ lookup j m
unfolding incr
incr_other t k j m h = ground (arith, insert_other k j (incremented (unexpired t (lookup k m))) m h)

pub expire_self :
    (t : ℕ) (k : String) (seconds : ℕ) (m : Dict Counter) (c : Counter)
    → unexpired t (lookup k m) ≡ some c
    → lookup k (expire t k seconds m)
      ≡ some (record c { expires = some (t + seconds * 1000000000) })
unfolding expire
expire_self t k seconds m c h = rw (h, expire_entry) (lookup-insert_self k _ m)

pub expire_other :
    (t : ℕ) (k j : String) (seconds : ℕ) (m : Dict Counter)
    → k ≢ j
    → lookup j (expire t k seconds m) ≡ lookup j m
unfolding expire
expire_other t k j seconds m h = elim (Option-cases (unexpired t (lookup k m))) [
  | inl e ↦ rw (e, expire_entry)
  | inr (c, e) ↦ rw (e, expire_entry) (insert_other k j _ m h)
]

abbrev pub dict_counters : Counters
dict_counters = record {
  State = Dict Counter;
  entry = λ m k. lookup k m;
  incr = incr;
  expire = expire;
  incr_reply = incr_reply;
  incr_error = incr_error;
  incr_other = incr_other;
  expire_self = expire_self;
  expire_other = expire_other;
}
