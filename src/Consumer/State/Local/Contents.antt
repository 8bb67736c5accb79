-- ===== src/Consumer/State/Local/Contents.antt =====
-- What the local store relies on in its engine, and the changelog as a table.
use kafka_playgroud.Prelude.{
  ℕ, ◌≡◌, refl, false, ◌&&◌, Option, none, some, List, [], ◌∷◌, ◌++◌, String, nat_eq, string_eq,
  if◌then◌else◌, sym,
}
use mathlib.Core.List.{append-nil, append_assoc}
use kafka_playgroud.Prelude.Json.{Bytes, utf8}
use kafka_playgroud.Consumer.Broker.{Event, enqueued, Trace, emit}
use kafka_playgroud.Consumer.State.Local.{Engine}

-- The documented behaviour of the embedded store: `content` is what its directories hold, for each
-- partition and key. A call that raises promises nothing.
pub record IsEngine {D : Type 0} (e : Engine D) (content : D → ℕ → String → Option Bytes)
    : Type 0 where
  pub get_content :
      (d : D) (p : ℕ) (k : String) (v : Option Bytes) → e.get d p k ≡ some v → v ≡ content d p k
  pub put_content :
      (d d' : D) (p q : ℕ) (k j : String) (v : Bytes)
      → e.put d p k v ≡ some d'
      → content d' q j ≡ (if nat_eq.beq p q && string_eq.beq k j then some v else content d q j)
  pub del_content :
      (d d' : D) (p q : ℕ) (k j : String)
      → e.del d p k ≡ some d'
      → content d' q j ≡ (if nat_eq.beq p q && string_eq.beq k j then none else content d q j)
  pub open_content :
      (d d' : D) (p q : ℕ) (j : String)
      → e.open_store d p ≡ some d'
      → content d' q j ≡ content d q j
  pub close_content :
      (d : D) (p q : ℕ) (j : String) → content (e.close_store d p) q j ≡ content d q j
  pub destroy_content :
      (d d' : D) (p q : ℕ) (j : String)
      → e.destroy d p ≡ some d'
      → content d' q j ≡ (if nat_eq.beq p q then none else content d q j)
  pub remove_content :
      (d d' : D) (p q : ℕ) (j : String)
      → e.remove_tree d p ≡ some d'
      → content d' q j ≡ (if nat_eq.beq p q then none else content d q j)
  pub no_path_content :
      (d : D) (p : ℕ) (j : String) → e.path_exists d p ≡ false → content d p j ≡ none
  pub checkpoint_content :
      (d d' : D) (p q : ℕ) (j text : String)
      → e.write_checkpoint d p text ≡ some d'
      → content d' q j ≡ content d q j

-- A changelog as a list of keys and values, where `none` is a tombstone.
abbrev pub Changelog : Type 0
Changelog = List (String × Option Bytes)

abbrev pub Table : Type 0
Table = String → Option Bytes

abbrev pub empty : Table
empty _ = none

abbrev pub update : Table → String → Option Bytes → Table
update t k v j = if string_eq.beq k j then v else t j

-- The table after the records of a changelog: the last record of a key wins.
unfoldable pub replay : Table → Changelog → Table
replay t [] = t
replay t ((k, v) ∷ log) = replay (update t k v) log

pub replay-append :
    (t : Table) (log : Changelog) (k : String) (v : Option Bytes) (j : String)
    → replay t (log ++ (k, v) ∷ []) j ≡ update (replay t log) k v j
unfolding replay
replay-append t [] k v j = refl
replay-append t ((i, w) ∷ log) k v j = replay-append (update t i w) log k v j

-- The changelog records among the events of a trace.
abbrev keyed : Option Bytes → Option Bytes → Changelog
keyed (some (utf8 k)) v = (k, v) ∷ []
keyed _ v = []

abbrev pub entries : String → Event → Changelog
entries topic (enqueued out) = if string_eq.beq out.topic topic then keyed out.key out.value else []
entries topic _ = []

unfoldable pub changelog_of : String → Trace → Changelog
changelog_of topic [] = []
changelog_of topic (e ∷ t) = entries topic e ++ changelog_of topic t

pub changelog_of-emit :
    (topic : String) (e : Event) (t : Trace)
    → changelog_of topic (emit e t) ≡ changelog_of topic t ++ entries topic e
unfolding changelog_of
changelog_of-emit topic e [] = append-nil (entries topic e)
changelog_of-emit topic e (x ∷ t) =
    rw (changelog_of-emit topic e t)
      (sym (append_assoc (entries topic x) (changelog_of topic t) (entries topic e)))
