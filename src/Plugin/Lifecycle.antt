-- ===== src/Plugin/Lifecycle.antt =====
-- clap/plugin_example/src/plugin.cpp: the life of an instance under a host, and the SDK's contexts that it
-- opens and closes. A context's pointer is a number.
use mathlib.Core.Path.{subst}
use linux_opensource_univers.Prelude.{
  if◌then◌else◌, ℕ, ◌+◌, ◌≡◌, refl, sym, ap, ◌∙◌, ◌≢◌, Bool, true, false, Option, none, some, List,
  [], ◌∷◌, ◌++◌, append-nil,
}

-- `MyPlugin`, with what it has asked of the SDK and of the host so far: the contexts that
-- `dsp_accel_sdk_connect` has given, those that were disconnected, and how often the host has heard
-- of a change of the latency
pub record Instance : Type 0 where
  pub sdk_ctx : Option ℕ
  pub host_dsp_accel : Option ℕ
  pub connected : List ℕ
  pub disconnected : List ℕ
  pub latency_changes : ℕ

-- `plugin_factory_create_plugin`, by whether the identifier is the plugin's
unfoldable pub create_plugin : Bool → Option Instance
create_plugin true = some record {
  sdk_ctx = none;
  host_dsp_accel = none;
  connected = [];
  disconnected = [];
  latency_changes = 0;
}
create_plugin false = none

-- `plugin_init`, with the host's extension
unfoldable pub plugin_init : Option ℕ → Instance → Instance
plugin_init extension i = record i { sdk_ctx = none; host_dsp_accel = extension }

-- `plugin_activate`, by what `connect` gives and whether the host has the latency extension
unfoldable pub plugin_activate : Option ℕ → Bool → Instance → Instance
plugin_activate none latency i = record i { sdk_ctx = none }
plugin_activate (some c) latency i = record i {
  sdk_ctx = some c;
  connected = i.connected ++ c ∷ [];
  latency_changes = if latency then i.latency_changes + 1 else i.latency_changes;
}

-- `if (p->sdk_ctx) { dsp_accel_sdk_disconnect(p->sdk_ctx); p->sdk_ctx = nullptr; }`
unfoldable pub release : Option ℕ → Instance → Instance
release none i = i
release (some c) i = record i { sdk_ctx = none; disconnected = i.disconnected ++ c ∷ [] }

unfoldable pub plugin_deactivate : Instance → Instance
plugin_deactivate i = release i.sdk_ctx i

-- `plugin_destroy` does the same, and deletes the instance.
unfoldable pub plugin_destroy : Instance → Instance
plugin_destroy i = release i.sdk_ctx i

pub data Phase : Type 0 where
  created inactive active destroyed : Phase

-- What a host may call: it activates an instance that is not active, and no call comes after
-- `destroy`. The other calls leave the instance as it is.
pub data Step : Phase → Instance → Phase → Instance → Type 0 where
  init :
      (extension : Option ℕ) {i : Instance}
      → Step Phase.created i Phase.inactive (plugin_init extension i)
  activate :
      (ctx : Option ℕ) (latency : Bool) {i : Instance}
      → Step Phase.inactive i Phase.active (plugin_activate ctx latency i)
  deactivate : {i : Instance} → Step Phase.active i Phase.inactive (plugin_deactivate i)
  destroy :
      {p : Phase} {i : Instance} → p ≢ Phase.destroyed → Step p i Phase.destroyed (plugin_destroy i)

pub data Reach (i0 : Instance) : Phase → Instance → Type 0 where
  here : Reach i0 Phase.created i0
  next : {p q : Phase} {i j : Instance} → Reach i0 p i → Step p i q j → Reach i0 q j

abbrev pub held : Option ℕ → List ℕ
held none = []
held (some c) = c ∷ []

-- Every context that was opened has been closed once, in order, but for the one that is held; only an
-- active instance holds one.
pub record Balanced (p : Phase) (i : Instance) : Type 0 where
  pub contexts : i.connected ≡ i.disconnected ++ held i.sdk_ctx
  pub idle : p ≢ Phase.active → i.sdk_ctx ≡ none

release-Balanced :
    (o : Option ℕ) (p : Phase) (i : Instance)
    → i.sdk_ctx ≡ o
    → i.connected ≡ i.disconnected ++ held o
    → Balanced p (release o i)
unfolding release
release-Balanced none p i e h = record {
  contexts = h ∙ ap (λ (x : Option ℕ). i.disconnected ++ held x) (sym e);
  idle = λ n. e;
}
release-Balanced (some c) p i e h = record {
  contexts = h ∙ sym (append-nil (i.disconnected ++ c ∷ []));
  idle = λ n. refl;
}

nothing_held :
    (i : Instance) (p : Phase)
    → p ≢ Phase.active
    → Balanced p i
    → i.connected ≡ i.disconnected ++ []
nothing_held i p n b = b.contexts ∙ ap (λ (o : Option ℕ). i.disconnected ++ held o) (b.idle n)

Step-Balanced : {p q : Phase} {i j : Instance} → Step p i q j → Balanced p i → Balanced q j
unfolding plugin_init plugin_activate plugin_deactivate plugin_destroy
Step-Balanced (Step.init extension {i}) b = record {
  contexts = nothing_held i Phase.created (λ e. cc) b;
  idle = λ n. refl;
}
Step-Balanced (Step.activate none latency {i}) b = record {
  contexts = nothing_held i Phase.inactive (λ e. cc) b;
  idle = λ n. refl;
}
Step-Balanced (Step.activate (some c) latency {i}) b = record {
  contexts =
      ap (λ (l : List ℕ). l ++ c ∷ [])
        (nothing_held i Phase.inactive (λ e. cc) b ∙ append-nil i.disconnected);
  idle = λ n. absurd (n refl);
}
Step-Balanced (Step.deactivate {i}) b = release-Balanced i.sdk_ctx Phase.inactive i refl b.contexts
Step-Balanced (Step.destroy {i = i} alive) b =
    release-Balanced i.sdk_ctx Phase.destroyed i refl b.contexts

Reach-Balanced :
    {i0 : Instance} {p : Phase} {i : Instance}
    → Balanced Phase.created i0
    → Reach i0 p i
    → Balanced p i
Reach-Balanced b Reach.here = b
Reach-Balanced b (Reach.next r s) = Step-Balanced s (Reach-Balanced b r)

created-Balanced : (i0 : Instance) → create_plugin true ≡ some i0 → Balanced Phase.created i0
unfolding create_plugin
created-Balanced i0 e =
    let fresh : Instance = record {
      sdk_ctx = none;
      host_dsp_accel = none;
      connected = [];
      disconnected = [];
      latency_changes = 0;
    } in
    let same : fresh ≡ i0 = cc e in
    subst (Balanced Phase.created) same record { contexts = refl; idle = λ n. refl }

-- Whatever a host calls on an instance that the factory has made, and whatever `connect` answers:
-- each context that was opened has been disconnected once, in order, but for the one that the
-- instance holds, and only an active instance holds one. So none is left once it is destroyed.
pub contexts_released :
    {i0 : Instance} {p : Phase} {i : Instance}
    → create_plugin true ≡ some i0
    → Reach i0 p i
    → (i.connected ≡ i.disconnected ++ held i.sdk_ctx)
      × (p ≢ Phase.active → i.connected ≡ i.disconnected)
contexts_released {i0} {p} {i} e r =
    let b = Reach-Balanced (created-Balanced i0 e) r in
    (b.contexts, λ n. nothing_held i p n b ∙ append-nil i.disconnected)
