-- ===== src/Registry.antt =====
-- registry/registry.go and registry/watcher.go: services, events and errors, which every registry
-- shares. A `*Service` is modelled by its value: no caller changes a service that it has registered.
pub mod Memory
pub mod Address
pub mod Watchers
pub mod Consul
pub mod Etcd
pub mod Nacos
mod Tests
use grodyia.Prelude.{
  ℕ, String, Bool, List, Dict, Option, some, none, if◌then◌else◌, string_eq, ◌==◌,
}
use grodyia.Prelude.Int.{ℤ}

pub record Endpoint : Type 0 where
  pub name : String
  pub metadata : Dict String String

-- `ttl` is in nanoseconds and may be any `time.Duration`; `last_seen` is an instant.
pub record Service : Type 0 where
  pub name : String
  pub version : String
  pub id : String
  pub address : String
  pub metadata : Dict String String
  pub endpoints : List Endpoint
  pub ttl : ℤ
  pub last_seen : ℕ
  pub healthy : Bool

pub data EventType : Type 0 where
  create delete_event update : EventType

pub record Event : Type 0 where
  pub type : EventType
  pub service : Service
  pub timestamp : ℕ

pub data Error : Type 0 where
  not_found watcher_stopped not_connected : Error

pub data Result {ℓ} (A : Type ℓ) : Type ℓ where
  ok : A → Result A
  err : Error → Result A

-- `NewRegistry`: the kinds of registry, and which one a type string selects.
pub data Kind : Type 0 where
  memory nacos consul etcd : Kind

unfoldable pub new_registry : String → Kind
new_registry reg_type =
    if reg_type == "nacos"
    then nacos
    else if reg_type == "consul"
    then consul
    else if reg_type == "etcd"
    then etcd
    else memory
