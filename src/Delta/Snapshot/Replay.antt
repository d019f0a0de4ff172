-- ===== src/Delta/Snapshot/Replay.antt =====
-- internal/storage/delta/table.go: what a replay makes of a table.
use agent_brain.Base.{
  ◌≡◌, refl, ap, ◌∙◌, Option, none, some, List, [], ◌∷◌, ◌++◌, arith, if◌then◌else◌,
}
use agent_brain.Base.Bytes.{Bytes, bytes_eq}
use agent_brain.Base.Map.{lookup, lookup-insert, lookup-erase}
use agent_brain.Delta.Actions.{
  Action, Protocol, Metadata, Add, Remove, CommitInfo, commit_info_action,
}
use agent_brain.Delta.Snapshot.{Snapshot, apply_fields, apply_action, replay}

-- What one action says of a path: nothing, that it is removed, or which file it is. An action that
-- also carries a protocol or metadata says nothing of files.
word_of :
    Bytes → Option Protocol → Option Metadata → Option Add → Option Remove → Option (Option Add)
word_of path (some p) m a r = none
word_of path none (some m) a r = none
word_of path none none (some a) r = if bytes_eq a.path path then some (some a) else none
word_of path none none none (some r) = if bytes_eq r.path path then some none else none
word_of path none none none none = none

unfoldable pub word : Bytes → Action → Option (Option Add)
unfolding word_of
word path a = word_of path a.protocol a.meta_data a.add a.remove

abbrev pub or_else {ℓ} : {A : Type ℓ} → Option A → Option A → Option A
or_else (some x) y = some x
or_else none y = y

abbrev pub or_keep {ℓ} : {A : Type ℓ} → Option A → A → A
or_keep (some x) y = x
or_keep none y = y

unfoldable pub last_word : Bytes → List Action → Option (Option Add)
last_word path [] = none
last_word path (a ∷ acts) = or_else (last_word path acts) (word path a)

fields-word :
    (path : Bytes) (p : Option Protocol) (m : Option Metadata) (a : Option Add) (r : Option Remove)
    (snap : Snapshot)
    → lookup path (apply_fields p m a r snap).files
      ≡ or_keep (word_of path p m a r) (lookup path snap.files)
unfolding apply_fields word_of
fields-word path (some p) m a r snap = refl
fields-word path none (some m) a r snap = refl
fields-word path none none (some a) r snap = ground (arith, lookup-insert a.path path a snap.files)
fields-word path none none none (some r) snap = ground (arith, lookup-erase r.path path snap.files)
fields-word path none none none none snap = refl

apply_action-word :
    (path : Bytes) (a : Action) (snap : Snapshot)
    → lookup path (apply_action a snap).files ≡ or_keep (word path a) (lookup path snap.files)
unfolding apply_action word
apply_action-word path a snap = fields-word path a.protocol a.meta_data a.add a.remove snap

keep-else {ℓ} :
    {A : Type ℓ} (x y : Option A) (z : A) → or_keep x (or_keep y z) ≡ or_keep (or_else x y) z
keep-else (some x) y z = refl
keep-else none y z = refl

-- After a replay each path of the file map holds what the last action about it said, an add its
-- file and a remove nothing, and a path without an action what it held before.
pub replay-last_word :
    (path : Bytes) (acts : List Action) (snap : Snapshot)
    → lookup path (replay acts snap).files ≡ or_keep (last_word path acts) (lookup path snap.files)
unfolding replay last_word
replay-last_word path [] snap = refl
replay-last_word path (a ∷ acts) snap =
    replay-last_word path acts (apply_action a snap)
    ∙ ap (or_keep (last_word path acts)) (apply_action-word path a snap)
    ∙ keep-else (last_word path acts) (word path a) (lookup path snap.files)

-- The protocol and the metadata that a list of actions sets last.
metadata_of : Option Protocol → Option Metadata → Option Metadata
metadata_of (some p) m = none
metadata_of none m = m

unfoldable pub last_protocol : List Action → Option Protocol
last_protocol [] = none
last_protocol (a ∷ acts) = or_else (last_protocol acts) a.protocol

unfoldable pub last_metadata : List Action → Option Metadata
unfolding metadata_of
last_metadata [] = none
last_metadata (a ∷ acts) = or_else (last_metadata acts) (metadata_of a.protocol a.meta_data)

fields-protocol :
    (p : Option Protocol) (m : Option Metadata) (a : Option Add) (r : Option Remove)
    (snap : Snapshot)
    → (apply_fields p m a r snap).protocol ≡ or_else p snap.protocol
unfolding apply_fields
fields-protocol p m a r snap = ground arith

fields-metadata :
    (p : Option Protocol) (m : Option Metadata) (a : Option Add) (r : Option Remove)
    (snap : Snapshot)
    → (apply_fields p m a r snap).metadata ≡ or_else (metadata_of p m) snap.metadata
unfolding apply_fields metadata_of
fields-metadata p m a r snap = ground arith

else_assoc {ℓ} : {A : Type ℓ} (x y z : Option A) → or_else x (or_else y z) ≡ or_else (or_else x y) z
else_assoc (some x) y z = refl
else_assoc none y z = refl

pub replay-protocol :
    (acts : List Action) (snap : Snapshot)
    → (replay acts snap).protocol ≡ or_else (last_protocol acts) snap.protocol
unfolding replay last_protocol apply_action
replay-protocol [] snap = refl
replay-protocol (a ∷ acts) snap =
    replay-protocol acts (apply_action a snap)
    ∙ ap (or_else (last_protocol acts)) (fields-protocol a.protocol a.meta_data a.add a.remove snap)
    ∙ else_assoc (last_protocol acts) a.protocol snap.protocol

pub replay-metadata :
    (acts : List Action) (snap : Snapshot)
    → (replay acts snap).metadata ≡ or_else (last_metadata acts) snap.metadata
unfolding replay last_metadata apply_action
replay-metadata [] snap = refl
replay-metadata (a ∷ acts) snap =
    replay-metadata acts (apply_action a snap)
    ∙ ap (or_else (last_metadata acts)) (fields-metadata a.protocol a.meta_data a.add a.remove snap)
    ∙ else_assoc (last_metadata acts) (metadata_of a.protocol a.meta_data) snap.metadata

-- Two snapshots show the same table: the order of the file map and the version are forgotten.
pub record SameTable (s t : Snapshot) : Type 0 where
  pub same_protocol : s.protocol ≡ t.protocol
  pub same_metadata : s.metadata ≡ t.metadata
  pub same_files : (path : Bytes) → lookup path s.files ≡ lookup path t.files

else_twice {ℓ} : {A : Type ℓ} (x y : Option A) → or_else x (or_else x y) ≡ or_else x y
else_twice (some x) y = refl
else_twice none y = refl

keep_twice {ℓ} : {A : Type ℓ} (x : Option A) (y : A) → or_keep x (or_keep x y) ≡ or_keep x y
keep_twice (some x) y = refl
keep_twice none y = refl

-- Replaying the same actions a second time changes nothing of the table: the protocol, the metadata
-- and the file of each path stay.
pub replay_twice :
    (acts : List Action) (snap : Snapshot)
    → SameTable (replay acts (replay acts snap)) (replay acts snap)
replay_twice acts snap = record {
  same_protocol =
      rw (replay-protocol acts (replay acts snap), replay-protocol acts snap)
        (else_twice (last_protocol acts) snap.protocol);
  same_metadata =
      rw (replay-metadata acts (replay acts snap), replay-metadata acts snap)
        (else_twice (last_metadata acts) snap.metadata);
  same_files = λ path.
      rw (replay-last_word path acts (replay acts snap), replay-last_word path acts snap)
        (keep_twice (last_word path acts) (lookup path snap.files));
}

pub replay-SameTable :
    (acts : List Action) (s t : Snapshot)
    → SameTable s t
    → SameTable (replay acts s) (replay acts t)
replay-SameTable acts s t h = record {
  same_protocol =
      rw (replay-protocol acts s, replay-protocol acts t)
        (ap (or_else (last_protocol acts)) h.same_protocol);
  same_metadata =
      rw (replay-metadata acts s, replay-metadata acts t)
        (ap (or_else (last_metadata acts)) h.same_metadata);
  same_files = λ path.
      rw (replay-last_word path acts s, replay-last_word path acts t)
        (ap (or_keep (last_word path acts)) (h.same_files path));
}

pub SameTable-trans : (s t u : Snapshot) → SameTable s t → SameTable t u → SameTable s u
SameTable-trans s t u h k = record {
  same_protocol = h.same_protocol ∙ k.same_protocol;
  same_metadata = h.same_metadata ∙ k.same_metadata;
  same_files = λ path. h.same_files path ∙ k.same_files path;
}

pub replay-append :
    (xs ys : List Action) (snap : Snapshot) → replay (xs ++ ys) snap ≡ replay ys (replay xs snap)
unfolding replay
replay-append [] ys snap = refl
replay-append (x ∷ xs) ys snap = replay-append xs ys (apply_action x snap)

-- The note on its commit changes no table.
pub replay-commit_info :
    (acts : List Action) (c : CommitInfo) (snap : Snapshot)
    → replay (acts ++ commit_info_action c ∷ []) snap ≡ replay acts snap
unfolding replay apply_action commit_info_action
replay-commit_info [] c snap = refl
replay-commit_info (a ∷ acts) c snap = replay-commit_info acts c (apply_action a snap)
