-- ===== src/Client/Unique.antt =====
-- Different hosts, plugins and jobs have different paths, whatever characters their names hold.
use mathlib.Core.Option
use backup_orchestration_pla.Common.{
  ◌≡◌, ◌≢◌, inl, inr, sym, ap, ◌∙◌, some, [], ◌∷◌, ◌++◌, All, arith, Option-cases, some_inj,
}
use backup_orchestration_pla.Common.Text.{Text, codes}
use backup_orchestration_pla.Uri.{encode_uri_component}
use backup_orchestration_pla.Uri.Scalars.{IsUnit}
use backup_orchestration_pla.Uri.Safe.{IsSafe, encode-IsSafe, separators_encoded}
use backup_orchestration_pla.Uri.RoundTrip.{encode_uri_component-injective}
use backup_orchestration_pla.Client.Paths.{config_path}

abbrev pub NoSlash : Text → Type 0
NoSlash s = All (λ c. c ≢ b'/') s

pub IsSafe-NoSlash : (s : Text) → IsSafe s → NoSlash s
IsSafe-NoSlash [] h = tt
IsSafe-NoSlash (c ∷ s) h = ((separators_encoded c h.0).0, IsSafe-NoSlash s h.1)

-- Texts that go up to the first slash are told apart by what they are part of.
split_slash :
    (a b x y : Text) → NoSlash a → NoSlash b → a ++ b'/' ∷ x ≡ b ++ b'/' ∷ y → (a ≡ b) × (x ≡ y)
split_slash [] [] x y h k e = ground arith
split_slash [] (d ∷ b) x y h k e = ground arith
split_slash (c ∷ a) [] x y h k e = ground arith
split_slash (c ∷ a) (d ∷ b) x y h k e = ground (arith, split_slash a b x y h.1 k.1)

-- The parts of a path of a plugin's configuration.
record Parts (host plugin p : Text) : Type 0 where
  h : Text
  q : Text
  host_encoded : encode_uri_component host ≡ some h
  plugin_encoded : encode_uri_component plugin ≡ some q
  whole : codes "/v1/hosts/" ++ (h ++ (codes "/plugins/" ++ (q ++ codes "/config"))) ≡ p

config_path-Parts : (host plugin p : Text) → config_path host plugin ≡ some p → Parts host plugin p
unfolding config_path Option.bind
config_path-Parts host plugin p e = elim (Option-cases (encode_uri_component host)) [
  | inl bad ↦ cc (rw bad at e)
  | inr (h, hok) ↦ elim (Option-cases (encode_uri_component plugin)) [
    | inl bad ↦ cc (rw (hok, bad) at e)
    | inr (q, qok) ↦ record {
      h = h;
      q = q;
      host_encoded = hok;
      plugin_encoded = qok;
      whole = some_inj (rw (hok, qok) at e);
    }
  ]
]

pub drop_prefix : (s x y : Text) → s ++ x ≡ s ++ y → x ≡ y
drop_prefix [] x y e = e
drop_prefix (c ∷ s) x y e = drop_prefix s x y (ground arith)

-- Two pairs of a host and a plugin, texts of UTF-16 units, whose configuration has one path are one pair.
pub config_path-injective :
    (host plugin host' plugin' : Text) {p : Text}
    → All IsUnit host
    → All IsUnit plugin
    → All IsUnit host'
    → All IsUnit plugin'
    → config_path host plugin ≡ some p
    → config_path host' plugin' ≡ some p
    → (host ≡ host') × (plugin ≡ plugin')
config_path-injective host plugin host' plugin' {p} uh up uh' up' e e' =
    let a = config_path-Parts host plugin p e in
    let b = config_path-Parts host' plugin' p e' in
    let safe_h = IsSafe-NoSlash a.h (encode-IsSafe host uh a.host_encoded) in
    let safe_h' = IsSafe-NoSlash b.h (encode-IsSafe host' uh' b.host_encoded) in
    let safe_q = IsSafe-NoSlash a.q (encode-IsSafe plugin up a.plugin_encoded) in
    let safe_q' = IsSafe-NoSlash b.q (encode-IsSafe plugin' up' b.plugin_encoded) in
    let hosts =
      split_slash a.h b.h _ _ safe_h safe_h'
        (drop_prefix (codes "/v1/hosts/") _ _ (a.whole ∙ sym b.whole)) in
    let plugins =
      split_slash a.q b.q _ _ safe_q safe_q' (drop_prefix (codes "plugins/") _ _ hosts.1) in
    (
      encode_uri_component-injective host host' uh uh' a.host_encoded
          (b.host_encoded ∙ ap some (sym hosts.0)),
      encode_uri_component-injective plugin plugin' up up' a.plugin_encoded
          (b.plugin_encoded ∙ ap some (sym plugins.0)),
    )
