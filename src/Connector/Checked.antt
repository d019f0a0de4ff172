-- ===== src/Connector/Checked.antt =====
-- internal/connector/registry.go: what a validated configuration promises.
use agent_brain.Base.{◌≡◌, refl, sym, true, Option, none, some, [], Bool-cases, inl, inr}
use agent_brain.Base.Bytes.{Bytes, bytes_eq}
use agent_brain.Base.Map.{lookup}
use agent_brain.Retry.Errors.{Result, ok, err, is_err}
use agent_brain.Retry.Executor.{Operation}
use agent_brain.Delta.Store.{◌>>=◌, context}
use agent_brain.Connector.{
  SourceConfig, Factory, Registry, plugin_factory, plugin_name, create_plugin_connector, create,
  create_known, validate_known, PluginManager, is_plugin, validate_plugin_source_config,
  validate_source_config,
}

-- Two runs that both failed, or that both gave the same.
module _ {W A : Type 0} where
  abbrev Same : Result A × W → Result A × W → Type 0
  Same (ok a, w) (ok b, u) = (a ≡ b) × (w ≡ u)
  Same (ok a, w) (err e, u) = ⊥
  Same (err e, w) (ok a, u) = ⊥
  Same (err e, w) (err e', u) = Unit

  context-Same :
      (text text' : Bytes) (m : Operation W A) (w : W) → Same (context text m w) (context text' m w)
  unfolding context
  context-Same text text' m w = go (m w)
    where
      go : (p : Result A × W) → Same (context text (λ _. p) w) (context text' (λ _. p) w)
      go (ok a, w') = (refl, refl)
      go (err e, w') = tt

  context-fails :
      (text : Bytes) (m : Operation W A) (w : W)
      → is_err (m w).0 ≡ true
      → is_err (context text m w).0 ≡ true
  unfolding context
  context-fails text m w h = go (m w) h
    where
      go : (p : Result A × W) → is_err p.0 ≡ true → is_err (context text (λ _. p) w).0 ≡ true
      go (ok a, w') h = cc
      go (err e, w') h = refl

  bind-fails :
      {B : Type 0} (m : Operation W A) (f : A → Operation W B) (w : W)
      → is_err (m w).0 ≡ true
      → is_err ((m >>= f) w).0 ≡ true
  unfolding ◌>>=◌
  bind-fails m f w h = go (m w) h
    where
      go : (p : Result A × W) → is_err p.0 ≡ true → is_err (((λ _. p) >>= f) w).0 ≡ true
      go (ok a, w') h = cc
      go (err e, w') h = refl

  bind-Same :
      {B C : Type 0} (m m' : Operation W A) (f : A → Operation W B) (g : A → Operation W C) (w : W)
      → Same (m w) (m' w)
      → ((a : A) (w' : W) → is_err (f a w').0 ≡ true → is_err (g a w').0 ≡ true)
      → is_err ((m >>= f) w).0 ≡ true
      → is_err ((m' >>= g) w).0 ≡ true
  unfolding ◌>>=◌
  bind-Same m m' f g w s k h = go (m w) (m' w) s h
    where
      go :
          (p q : Result A × W)
          → Same p q
          → is_err (((λ _. p) >>= f) w).0 ≡ true
          → is_err (((λ _. q) >>= g) w).0 ≡ true
      go (ok a, w') (ok b, u) (s, t) h = rw (sym s, sym t) (k a w' h)
      go (ok a, w') (err e, u) s h = elim s [ ]
      go (err e, w') (ok a, u) s h = elim s [ ]
      go (err e, w') (err e', u) s h = refl

module _ {W : Type 0} (r : Registry W) where
  plugin_factory-Same :
      (a b a' b' t : Bytes) (w : W) → Same (plugin_factory r a b t w) (plugin_factory r a' b' t w)
  unfolding plugin_factory
  plugin_factory-Same a b a' b' t w = go r.plugin_manager refl
    where
      go :
          (o : Option (PluginManager W))
          → r.plugin_manager ≡ o
          → Same (plugin_factory r a b t w) (plugin_factory r a' b' t w)
      go none e = rw (plugin_factory, e) tt
      go (some manager) e =
          rw (plugin_factory, e)
            (elim (Bool-cases (bytes_eq (plugin_name t) [])) [
              | inl empty ↦ rw empty tt
              | inr named ↦ rw named (context-Same b b' (manager (plugin_name t)) w)
            ])

  plugin-fails :
      (cfg : SourceConfig) (w : W)
      → is_err (create_plugin_connector r cfg w).0 ≡ true
      → is_err (validate_plugin_source_config r cfg w).0 ≡ true
  unfolding create_plugin_connector validate_plugin_source_config
  plugin-fails cfg w =
      bind-Same _ _ _ _ w (plugin_factory-Same _ _ _ _ cfg.type w)
        (λ factory w' h. bind-fails _ _ w' (context-fails _ (factory cfg) w' h))

  known-fails :
      (quoted : Bytes → Bytes) (o : Option (Factory W)) (cfg : SourceConfig) (w : W)
      → is_err (create_known quoted o cfg w).0 ≡ true
      → is_err (validate_known o cfg w).0 ≡ true
  unfolding create_known validate_known
  known-fails quoted none cfg w h = refl
  known-fails quoted (some factory) cfg w h = bind-fails _ _ w (context-fails _ (factory cfg) w h)

  -- A configuration whose connector Create cannot make, for a registered type as for a plugin's, is
  -- refused by ValidateSourceConfig in the same situation.
  pub create-validate_source_config :
      (quoted : Bytes → Bytes) (cfg : SourceConfig) (w : W)
      → is_err (create r quoted cfg w).0 ≡ true
      → is_err (validate_source_config r cfg w).0 ≡ true
  unfolding create validate_source_config
  create-validate_source_config quoted cfg w h = elim (Bool-cases (is_plugin cfg.type)) [
    | inl plugin ↦ rw plugin (plugin-fails cfg w (rw plugin at h))
    | inr known ↦ rw known (known-fails quoted (lookup cfg.type r.factories) cfg w (rw known at h))
  ]
