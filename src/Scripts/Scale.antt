-- ===== src/Scripts/Scale.antt =====
-- scripts/verify-payment-consumer-scale.mjs. Times are whole numbers of milliseconds.
pub mod Rounds
use eventflow_kafka_microser.Prelude.{
  ℕ, String, Option, none, some, List, [], ◌∷◌, ◌==◌, ◌+◌, eqb, leb, ltb, length, concat,
  if◌then◌else◌, includes, join, suc, zero,
}
use eventflow_kafka_microser.Js.Errors.{Result, ok, ◌>>=◌, ◌>>◌}
use eventflow_kafka_microser.Js.Host.{Host, int}
use eventflow_kafka_microser.Scripts.{assert}

pub record Member : Type 0 where
  pub client_id : Option String
  pub member_id : String

pub record Group : Type 0 where
  pub member_count : ℕ
  pub members : List Member
  pub state : String

-- What the script is answered in its rounds: `Date.now()`, `admin.listGroups()`, and the members and
-- the state of the group that `admin.describeGroups([id])` describes.
pub record Admin : Type 0 where
  pub clock : ℕ → ℕ
  pub list_groups : ℕ → Result (List String)
  pub describe_groups : ℕ → Result (Option (List Member) × String)

-- `clientId` of the members that have one
unfoldable pub client_ids : List Member → List String
client_ids [] = []
client_ids (m ∷ ms) =
    let rest = client_ids ms in
    elim m.client_id [ none ↦ rest | some id ↦ if id == "" then rest else id ∷ rest ]

-- `new Set(xs)`, of which only the size is read
unfoldable pub set_of : List String → List String
set_of [] = []
set_of (x ∷ xs) = let rest = set_of xs in if includes rest x then rest else x ∷ rest

-- `let last` of `main`
abbrev pub unknown : Group
unknown = record { member_count = 0; members = []; state = "unknown" }

-- `group.members ?? []`
abbrev members_of : Option (List Member) → List Member
members_of none = []
members_of (some ms) = ms

module _ ⦃H : Host⦄ (admin : Admin) (group_id : String) (min_members : ℕ) where
  unfoldable pub describe_group : ℕ → Result Group
  describe_group n = do
    groups ← admin.list_groups n
    if includes groups group_id
        then (admin.describe_groups n >>= λ (members, state). ok (record {
          member_count = length (members_of members);
          members = members_of members;
          state = state;
        }))
        else ok (record { member_count = 0; members = []; state = "EmptyGroup" })

  -- The loop of `main`, from its round `n`, with the group that was described last.
  unfoldable pub poll : ℕ → ℕ → ℕ → Group → Result Group
  poll zero deadline n last = ok last
  poll (suc fuel) deadline n last =
      if ltb (admin.clock n) deadline
      then (describe_group n >>= λ group.
          let rest = poll fuel deadline (n + 1) group in
          if leb min_members group.member_count then ok group else rest)
      else ok last

  unfoldable pub check_group : Group → Result (Unit {0})
  check_group last = do
    assert (leb min_members last.member_count) (
        concat (
          "Group "
          ∷ group_id
          ∷ " has "
          ∷ H.print (int last.member_count)
          ∷ " member(s); expected >= "
          ∷ H.print (int min_members)
          ∷ ". Start replicas: npm run docker:payment-instances"
          ∷ []))
    assert (eqb (length (set_of (client_ids last.members))) (length (client_ids last.members)))
        (concat ("Duplicate clientIds in group: " ∷ join ", " (client_ids last.members) ∷ []))

  -- `main`, which starts at the given time, for 15 seconds; its rounds wait for two seconds each. The
  -- first argument bounds their number.
  unfoldable pub verify_scale : ℕ → ℕ → Result (Unit {0})
  verify_scale fuel started = do last ← poll fuel (started + 15000) 0 unknown; check_group last
