-- ===== src/Cache/Redis/Memory.antt =====
-- A server in memory, which meets the laws of the client; the tests run on it.
use nestjs_starter.Prelude.{
  ℕ, ◌+◌, ◌*◌, ◌≤◌, ◌<◌, String, str_eq, eq_iff, eq_refl, ◌≡◌, refl, ◌⊎◌, Option, none, some, ltb,
  arith, if◌then◌else◌,
}
use nestjs_starter.Cache.Redis.{RedisClient}

pub record Entry : Type 0 where
  pub value : String
  pub expires_at : ℕ

abbrev pub Data : Type 0
Data = String → Option Entry

abbrev pub live : ℕ → Option Entry → Option String
live now none = none
live now (some e) = if ltb now e.expires_at then some e.value else none

pub look : ℕ → String → Data → Option String
look now k d = live now (d k)

pub put : ℕ → String → String → ℕ → Data → Data
put at k v ttl d =
    λ k'. if str_eq k k' then some (record { value = v; expires_at = at + ttl * 1000 }) else d k'

pub drop : String → Data → Data
drop k d = λ k'. if str_eq k k' then none else d k'

pub look-put :
    (now at ttl : ℕ) (k k' v w : String) (d : Data)
    → look now k' (put at k v ttl d) ≡ some w
    → ((k ≡ k') × (w ≡ v)) ⊎ (look now k' d ≡ some w)
unfolding look put
look-put now at ttl k k' v w d e = ground (arith, e, eq_iff k k')

pub look-put_fresh :
    (now at ttl : ℕ) (k v : String) (d : Data)
    → now < at + ttl * 1000
    → look now k (put at k v ttl d) ≡ some v
unfolding look put
look-put_fresh now at ttl k v d h = ground (arith, h, eq_refl k)

pub look-drop : (now : ℕ) (k : String) (d : Data) → look now k (drop k d) ≡ none
unfolding look drop
look-drop now k d = ground (arith, eq_refl k)

pub look-drop_other :
    (now : ℕ) (k k' v : String) (d : Data)
    → look now k' (drop k d) ≡ some v
    → look now k' d ≡ some v
unfolding look drop
look-drop_other now k k' v d e = ground (e, arith)

pub look-later :
    (now later : ℕ) (k v : String) (d : Data)
    → now ≤ later
    → look later k d ≡ some v
    → look now k d ≡ some v
unfolding look
look-later now later k v d h e = ground (arith, h, e)

abbrev pub memory_client : RedisClient
memory_client = record {
  Data = Data;
  get = look;
  set_ex = put;
  unlink = drop;
  get-set_ex = look-put;
  get-set_ex_fresh = look-put_fresh;
  get-unlink = look-drop;
  get-unlink_other = look-drop_other;
  get-later = look-later;
}

abbrev pub no_data : Data
no_data k = none

pub look-nothing : (now : ℕ) (k : String) → look now k no_data ≡ none
unfolding look
look-nothing now k = refl
