-- ===== src/CircuitBreaker/Registry.antt =====
-- runtime/circuit_breaker.py: `CircuitBreakerRegistry`. Breakers that were made with no config of
-- their own hold the registry's one config object: `none` stands for that reference.
use hermes_lab.Prelude.{ℕ, String, Option, none, some, Bool}
use hermes_lab.Dict.{Dict, lookup, insert}
use hermes_lab.CircuitBreaker.Defs.{
  Config, Breaker, new, allow_request, record_success, record_failure, tripped,
}

pub record Entry : Type 0 where
  pub config : Option Config
  pub breaker : Breaker

pub record CircuitBreakerRegistry : Type 0 where
  pub default_config : Config
  pub breakers : Dict Entry

abbrev pub config_of : CircuitBreakerRegistry → Entry → Config
config_of r e = elim e.config [ none ↦ r.default_config | some c ↦ c ]

abbrev fresh_or : Option Entry → Entry → Entry
fresh_or none e = e
fresh_or (some e) fresh = e

-- `get_breaker`: the entry, which `put` stores where it was missing
unfoldable pub get_breaker : ℕ → String → Option Config → CircuitBreakerRegistry → Entry
get_breaker now id config r =
    fresh_or (lookup id r.breakers) (record { config = config; breaker = new now })

abbrev pub update_entry : String → Entry → CircuitBreakerRegistry → CircuitBreakerRegistry
update_entry id e r = record r { breakers = insert id e r.breakers }

unfoldable pub registry_allow : ℕ → String → CircuitBreakerRegistry → CircuitBreakerRegistry × Bool
unfolding get_breaker
registry_allow now id r =
    let e = get_breaker now id none r in
    let (b, answer) = allow_request now (config_of r e) e.breaker in
    (update_entry id (record e { breaker = b }) r, answer)

unfoldable pub registry_success : ℕ → String → CircuitBreakerRegistry → CircuitBreakerRegistry
unfolding get_breaker
registry_success now id r =
    let e = get_breaker now id none r in
    update_entry id (record e { breaker = record_success now (config_of r e) e.breaker }) r

unfoldable pub registry_failure : ℕ → String → CircuitBreakerRegistry → CircuitBreakerRegistry
unfolding get_breaker
registry_failure now id r =
    let e = get_breaker now id none r in
    update_entry id (record e { breaker = record_failure now (config_of r e) e.breaker }) r

-- A config that `trip_open` writes to is the entry's own, or the shared one.
abbrev store_config : Option Config → Config → CircuitBreakerRegistry → CircuitBreakerRegistry
store_config none c r = record r { default_config = c }
store_config (some old) c r = r

abbrev own_config : Option Config → Config → Option Config
own_config none c = none
own_config (some old) c = some c

-- `registry.get_breaker(id).trip_open(cooldown)`
unfoldable pub registry_trip :
    ℕ → String → Option ℕ → CircuitBreakerRegistry → CircuitBreakerRegistry
unfolding get_breaker
registry_trip now id cooldown r =
    let e = get_breaker now id none r in
    let (c, b) = tripped now cooldown (config_of r e) e.breaker in
    update_entry id (record { config = own_config e.config c; breaker = b })
      (store_config e.config c r)
