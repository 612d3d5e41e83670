-- ===== src/Execution/Like.antt =====
-- src/execution/eval.cpp, likeMatch. `ti` and `pi` are what is left of the text and of the pattern.
pub mod Matching
pub mod Decision
use lite_query.Prelude.{
  ℕ, zero, suc, ◌+◌, ◌*◌, Bool, true, false, ◌||◌, ◌==◌, if◌then◌else◌, Bytes, Option, none, some,
  [], ◌∷◌, length,
}
use lite_query.Prelude.Result.{Result, ok, err, out_of_fuel}
use lite_query.Types.Schema.{to_lower}

-- The lambda `norm`.
unfoldable pub norm : Bool → ℕ → ℕ
unfolding to_lower
norm ci c = if ci then to_lower c else c

-- `star` and `tstar`, by what follows them: the pattern behind the last `%`, and the text that the
-- next attempt leaves one more byte of to the `%`. `none` is npos.
abbrev pub Star : Type 0
Star = Option (Bytes × Bytes)

abbrev pub Round : Type 0
Round = Bytes → Bytes → Star → Result Bool

-- The last two branches of the loop: `pi = star + 1; ti = ++tstar`, or no star to go back to.
unfoldable pub retry : Star → Round → Result Bool
retry none next = ok false
retry (some (pattern, [])) next = next pattern [] (some (pattern, []))
retry (some (pattern, c ∷ text)) next = next pattern text (some (pattern, text))

-- The second loop and the final test.
unfoldable pub only_percent : Bytes → Bool
only_percent [] = true
only_percent (x ∷ pattern) = if x == b'%' then only_percent pattern else false

unfoldable pub like_loop : Bool → ℕ → Round
unfolding norm retry only_percent
like_loop ci zero pattern text star = err out_of_fuel
like_loop ci (suc f) pattern [] star = ok (only_percent pattern)
like_loop ci (suc f) [] (c ∷ text) star = retry star (like_loop ci f)
like_loop ci (suc f) (x ∷ pattern) (c ∷ text) star =
    let onward = like_loop ci f pattern text star in
    let mark = like_loop ci f pattern (c ∷ text) (some (pattern, c ∷ text)) in
    let again = retry star (like_loop ci f) in
    if (x == b'_') || (norm ci x == norm ci c) then onward else if x == b'%' then mark else again

unfoldable pub like_match : Bytes → Bytes → Bool → Result Bool
unfolding like_loop
like_match text pattern ci =
    like_loop ci ((length text + 1) * (length pattern + 1)) pattern text none
