-- ===== src/BrowserWindow/Options.antt =====
-- internal/browserwindow/options.go: the defaults and checks of the window options.
-- The scale factor is a float: its type, `1.0` and the test that it is a positive finite number
-- are the parameter `Scale`. `filepath.IsAbs` differs by platform and is a parameter.
use golectron.Prelude.{
  ◌≡◌, Bool, true, false, not, ◌&&◌, ◌⊎◌, arith, ℤ, pos, is_nonpositive, Option, none, some,
  Outcome, ok, err, ◌>>=◌, if◌then◌else◌,
}
use mathlib.Core.Bool.{xor}
use golectron.Text.{Text, trim_space, is_empty}

pub data OptionsError : Type 0 where
  invalid_bounds invalid_preload_path invalid_parent invalid_offscreen : OptionsError

abbrev pub default_width : ℤ
default_width = pos 800

abbrev pub default_height : ℤ
default_height = pos 600

pub record Scale (F : Type 0) : Type 0 where
  pub one : F
  pub is_usable : F → Bool

pub record OffscreenPreferences (F : Type 0) : Type 0 where
  pub enabled : Bool
  pub device_scale_factor : Option F

pub record WebPreferences (F : Type 0) : Type 0 where
  pub dev_tools : Option Bool
  pub node_integration : Bool
  pub node_integration_in_worker : Bool
  pub node_integration_in_sub_frames : Bool
  pub context_isolation : Option Bool
  pub sandbox : Bool
  pub preload : Text
  pub background_throttling : Option Bool
  pub focus_on_navigation : Option Bool
  pub offscreen : OffscreenPreferences F

pub record ConstructorOptions (F : Type 0) : Type 0 where
  pub width : Option ℤ
  pub height : Option ℤ
  pub x : Option ℤ
  pub y : Option ℤ
  pub use_content_size : Bool
  pub center : Bool
  pub show : Option Bool
  pub parent_id : ℤ
  pub modal : Bool
  pub title : Text
  pub web_preferences : WebPreferences F

-- The zero value, of preferences that are off, has no factor: it is `none`.
pub record NormalizedOffscreenPreferences (F : Type 0) : Type 0 where
  pub enabled : Bool
  pub device_scale_factor : Option F

pub record NormalizedWebPreferences (F : Type 0) : Type 0 where
  pub dev_tools : Bool
  pub node_integration : Bool
  pub node_integration_in_worker : Bool
  pub node_integration_in_sub_frames : Bool
  pub context_isolation : Bool
  pub sandbox : Bool
  pub preload : Text
  pub background_throttling : Bool
  pub focus_on_navigation : Bool
  pub offscreen : NormalizedOffscreenPreferences F

pub record NormalizedOptions (F : Type 0) : Type 0 where
  pub width : ℤ
  pub height : ℤ
  pub x : Option ℤ
  pub y : Option ℤ
  pub use_content_size : Bool
  pub center : Bool
  pub show : Bool
  pub parent_id : ℤ
  pub modal : Bool
  pub title : Text
  pub web_preferences : NormalizedWebPreferences F

abbrev pub or_default : {A : Type 0} → Option A → A → A
or_default none d = d
or_default (some a) d = a

abbrev pub is_nil : {A : Type 0} → Option A → Bool
is_nil none = true
is_nil (some a) = false

-- `if test { return err }`
abbrev reject_if :
    {A : Type 0} → Bool → OptionsError → Outcome OptionsError A → Outcome OptionsError A
reject_if true e rest = err e
reject_if false e rest = rest

module _ {F : Type 0} (scale : Scale F) where
  unfoldable pub normalize_offscreen_preferences :
      OffscreenPreferences F → Outcome OptionsError (NormalizedOffscreenPreferences F)
  normalize_offscreen_preferences prefs =
      let factor = or_default prefs.device_scale_factor scale.one in
      if not prefs.enabled
      then reject_if (not (is_nil prefs.device_scale_factor)) invalid_offscreen
          (ok (record { enabled = false; device_scale_factor = none }))
      else reject_if (not (scale.is_usable factor)) invalid_offscreen
          (ok (record { enabled = true; device_scale_factor = some factor }))

module _ {F : Type 0} (scale : Scale F) (is_abs : Text → Bool) where
  unfoldable pub normalize_web_preferences :
      WebPreferences F → Outcome OptionsError (NormalizedWebPreferences F)
  normalize_web_preferences prefs =
      reject_if (not (is_empty prefs.preload) && not (is_abs prefs.preload)) invalid_preload_path
        (do
          offscreen ← normalize_offscreen_preferences scale prefs.offscreen
          ok (record {
            dev_tools = or_default prefs.dev_tools true;
            node_integration = prefs.node_integration;
            node_integration_in_worker = prefs.node_integration_in_worker;
            node_integration_in_sub_frames = prefs.node_integration_in_sub_frames;
            context_isolation = or_default prefs.context_isolation true;
            sandbox = prefs.sandbox;
            preload = prefs.preload;
            background_throttling = or_default prefs.background_throttling true;
            focus_on_navigation = or_default prefs.focus_on_navigation true;
            offscreen = offscreen;
          }))

  unfoldable pub normalize_options :
      ConstructorOptions F → Outcome OptionsError (NormalizedOptions F)
  normalize_options opts =
      let width = or_default opts.width default_width in
      let height = or_default opts.height default_height in
      reject_if (is_nonpositive width) invalid_bounds (
        reject_if (is_nonpositive height) invalid_bounds (
          reject_if (xor (is_nil opts.x) (is_nil opts.y)) invalid_bounds (
            reject_if (opts.modal && is_nonpositive opts.parent_id) invalid_parent (do
              web_preferences ← normalize_web_preferences opts.web_preferences
              ok (record {
                width = width;
                height = height;
                x = opts.x;
                y = opts.y;
                use_content_size = opts.use_content_size;
                center = opts.center;
                show = or_default opts.show true;
                parent_id = opts.parent_id;
                modal = opts.modal;
                title = trim_space opts.title;
                web_preferences = web_preferences;
              })))))

-- What every accepted set of options satisfies.
pub record IsNormal {F : Type 0} (scale : Scale F) (is_abs : Text → Bool)
    (opts : NormalizedOptions F) : Type 0 where
  pub width_positive : is_nonpositive opts.width ≡ false
  pub height_positive : is_nonpositive opts.height ≡ false
  pub placed_together : is_nil opts.x ≡ is_nil opts.y
  pub modal_parent : opts.modal ≡ true → is_nonpositive opts.parent_id ≡ false
  pub preload_absolute :
      (is_empty opts.web_preferences.preload ≡ true) ⊎ (is_abs opts.web_preferences.preload ≡ true)
  pub scaled :
      (f : F)
      → opts.web_preferences.offscreen.device_scale_factor ≡ some f
      → (opts.web_preferences.offscreen.enabled ≡ true) × (scale.is_usable f ≡ true)

-- `NormalizeOptions` accepts only options with positive sizes, with both or none of `x` and `y`, a
-- parent for a modal window, an absolute preload path or none, and a usable scale factor.
pub normalize_options-IsNormal :
    {F : Type 0} (scale : Scale F) (is_abs : Text → Bool) (opts : ConstructorOptions F)
    {n : NormalizedOptions F}
    → normalize_options scale is_abs opts ≡ ok n
    → IsNormal scale is_abs n
unfolding normalize_options normalize_web_preferences normalize_offscreen_preferences xor
normalize_options-IsNormal scale is_abs opts h = record {
  width_positive = ground arith;
  height_positive = ground arith;
  placed_together = ground arith;
  modal_parent = λ m. ground arith;
  preload_absolute = ground arith;
  scaled = λ f e. ground arith;
}
