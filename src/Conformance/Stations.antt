-- ===== src/Conformance/Stations.antt =====
-- The stations that a run of the suite makes up: a name of its own, and a suffix for each section.
use mathlib.Core.List.{append_assoc}
use heliograph_relay.Common.{
  ℕ, ◌≡◌, refl, ◌∙◌, true, false, [], ◌∷◌, ◌++◌, Text, same, is_empty, arith,
}
use heliograph_relay.Relay.Message.{key, valid_route}
use heliograph_relay.Auth.Scoped.{c2s}

same-append : (p s t : Text) → same (p ++ s) (p ++ t) ≡ same s t
unfolding same
same-append [] s t = refl
same-append (x ∷ p) s t = ground (arith, same-append p s t)

-- Which of two stations of a run is meant, their suffixes tell.
pub same-key_suffix :
    (estate uniq dir a b : Text)
    → same (key estate (uniq ++ a) dir) (key estate (uniq ++ b) dir)
      ≡ same (a ++ b'/' ∷ dir) (b ++ b'/' ∷ dir)
unfolding key same
same-key_suffix estate uniq dir a b =
    same-append estate _ _
    ∙ rw (append_assoc uniq a (b'/' ∷ dir), append_assoc uniq b (b'/' ∷ dir))
        (ground (arith, same-append uniq (a ++ b'/' ∷ dir) (b ++ b'/' ∷ dir)))

not_empty-append : (p : Text) (x : ℕ) (s : Text) → is_empty (p ++ x ∷ s) ≡ false
not_empty-append [] x s = refl
not_empty-append (y ∷ p) x s = refl

-- A station with a suffix has a name.
pub valid_route-suffix :
    (estate uniq : Text) (x : ℕ) (s : Text)
    → is_empty estate ≡ false
    → valid_route estate (uniq ++ x ∷ s) c2s ≡ true
unfolding valid_route same
valid_route-suffix estate uniq x s named = rw (named, not_empty-append uniq x s) refl

-- Which of two directions of a route is meant, they tell themselves.
pub same-key_dir :
    (estate station dir dir' : Text)
    → same (key estate station dir) (key estate station dir') ≡ same dir dir'
unfolding key same
same-key_dir estate station dir dir' =
    same-append estate _ _ ∙ ground (arith, same-append station (b'/' ∷ dir) (b'/' ∷ dir'))
