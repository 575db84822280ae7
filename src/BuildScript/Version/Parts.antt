-- ===== src/BuildScript/Version/Parts.antt =====
-- What the version and the iteration of the packages are of the program's version.
use Prim.Native.String
use text.Mathlib.TextLemmas.{nil-append, cons-append, append-nil}
use mathlib.Core.Path.{subst}
use syncflux.Prelude.{
  String, false, List, [], ◌∷◌, All, ◌≡◌, refl, ap, sym, ◌∙◌, ◌⊎◌, inl, inr, Bool-cases, str_eq,
  eq_iff, arith,
}
use syncflux.Go.Strings.{split, prepend}
use syncflux.BuildScript.{Globals}
use syncflux.BuildScript.Version.{package_parts, set_version}

-- A text in which a separator of one character does not occur.
abbrev pub Without : String → String → Type 0
Without sep String.[] = Unit
Without sep (String.◌∷◌ c s) = (str_eq (String.◌∷◌ c "") sep ≡ false) × Without sep s

-- Parts, each after a separator.
abbrev pub joined : String → List String → String
joined sep [] = ""
joined sep (p ∷ ps) = String.◌++◌ sep (String.◌++◌ p (joined sep ps))

-- Split cuts a text at every separator, and at nothing else.
split-joined :
    (sep s : String)
    → (p : String) × (ps : List String) × (split sep s ≡ p ∷ ps)
      × (s ≡ String.◌++◌ p (joined sep ps))
      × All (Without sep) (p ∷ ps)
unfolding split prepend
split-joined sep String.[] = ("", [], refl, refl, (tt, tt))
split-joined sep (String.◌∷◌ c s) =
    let (p, ps, cut, whole, without) = split-joined sep s in
    elim (Bool-cases (str_eq (String.◌∷◌ c "") sep)) [
      | inl here ↦
          let same : String.◌∷◌ c "" ≡ sep = (eq_iff _ _).0 here in
          (
            "",
            p ∷ ps,
            ground (arith, here, cut),
            ap (String.◌∷◌ c) whole
                ∙ sym (ap (String.◌∷◌ c) (nil-append _))
                ∙ sym (cons-append c "" _)
                ∙ ap (λ t. String.◌++◌ t (String.◌++◌ p (joined sep ps))) same
                ∙ sym (nil-append _),
            (tt, without),
          )
      | inr other ↦ (
        String.◌∷◌ c p,
        ps,
        ground (arith, other, cut),
        ap (String.◌∷◌ c) whole ∙ sym (cons-append c p (joined sep ps)),
        ((other, without.0), without.1),
      )
    ]

-- The version and the iteration that a version is cut into.
abbrev pub AreParts : String → String × String → Type 0
AreParts version (linux, iteration) =
    Without "-" linux
    × Without "-" iteration
    × (((version ≡ linux) × (iteration ≡ ""))
        ⊎ ((rest : List String) × All (Without "-") rest
            × (version ≡ String.◌++◌ linux (joined "-" (iteration ∷ rest)))))

package_parts-AreParts :
    (version p : String) (ps : List String)
    → version ≡ String.◌++◌ p (joined "-" ps)
    → All (Without "-") (p ∷ ps)
    → AreParts version (package_parts version (p ∷ ps))
unfolding package_parts
package_parts-AreParts version p [] whole (w, ws) =
    let same : version ≡ p = whole ∙ append-nil p in
    (subst (Without "-") (sym same) w, tt, inl (refl, refl))
package_parts-AreParts version p (q ∷ ps) whole (w, (v, ws)) = (w, v, inr (ps, ws, whole))

-- Of the program's version the packages take the text up to the first dash as their version, and the text from there
-- to the second dash as their iteration, which is empty where there is no dash; what follows a second dash is in
-- neither.
pub set_version_lem :
    (version : String) (g : Globals)
    → let g' = set_version version g in
      (g'.version ≡ version)
      × AreParts version (g'.linux_package_version, g'.linux_package_iteration)
unfolding set_version
set_version_lem version g =
    let (p, ps, cut, whole, without) = split-joined "-" version in
    (
      refl,
      subst (λ l. AreParts version (package_parts version l)) (sym cut)
          (package_parts-AreParts version p ps whole without),
    )
