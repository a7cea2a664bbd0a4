-- ===== src/Waxdiff/Policy.antt =====
-- `load_policy`, which reads test/oracle-policy.json.
use wax_mb.Base.{
  Text, Bool, Option, none, some, List, [], ◌∷◌, ◌==◌, list_eq, nat_eq, if◌then◌else◌,
}
use wax_mb.Waxdiff.Process.{Files, System}
use wax_mb.Waxdiff.Records.{Bucket, Modes, Policy, Route}

-- The object that `json.loads` gives for the file.
pub record PolicyFile : Type 0 where
  pub scope : Text
  pub scopes : List (Text × (Bucket → Modes))
  pub gated_fields : List Text
  pub reported_fields : List Text

-- `json.loads` of the policy, a parameter; `none` is its JSONDecodeError, or a key that is not there.
abbrev pub LoadPolicy : Type 0
LoadPolicy = Text → Option PolicyFile

-- `scope_override or p["scope"]`
unfoldable pub scope_of : Option Text → PolicyFile → Text
scope_of none p = p.scope
scope_of (some []) p = p.scope
scope_of (some (c ∷ s)) p = c ∷ s

-- `p["scopes"][scope]`, where `none` is a scope that is not among them
unfoldable pub modes_of : List (Text × (Bucket → Modes)) → Text → Option (Bucket → Modes)
modes_of [] scope = none
modes_of ((name, modes) ∷ scopes) scope =
    if name == scope then some modes else modes_of scopes scope

-- How reading the policy ends.
pub data PolicyLoad : Type 0 where
  policy_raised : PolicyLoad
  unknown_scope : Text → PolicyLoad
  policy_read : Policy → PolicyLoad

policy_with : PolicyFile → Text → Route → Option (Bucket → Modes) → PolicyLoad
policy_with p scope route none = unknown_scope scope
policy_with p scope route (some modes) = policy_read (record {
  buckets = modes;
  gated = p.gated_fields;
  reported = p.reported_fields;
  oracle2_route = route;
  self_test = Bool.false;
})

policy_from : Option Text → Route → Option PolicyFile → PolicyLoad
unfolding scope_of modes_of policy_with
policy_from override route none = policy_raised
policy_from override route (some p) =
    policy_with p (scope_of override p) route (modes_of p.scopes (scope_of override p))

-- The file is text in UTF-8; a file that is not there raises. The route is that of the caller.
unfoldable pub load_policy : System → LoadPolicy → Text → Option Text → Route → Files → PolicyLoad
unfolding policy_from
load_policy sys reads path override route files = elim (files path) [
  | none ↦ policy_raised
  | some text ↦ policy_from override route (reads (sys.decode text))
]
