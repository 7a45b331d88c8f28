-- ===== src/Cancel/Polls.antt =====
-- crates/common/src/future/cancel.rs: sequences of polls of a `CancelToken`.
use minibot_rust.Base.{ℕ, zero, suc, Bool, true, false, List, [], ◌∷◌, ◌≡◌, refl, ap}
use minibot_rust.Cancel.{
  HandleUse, kept, cancel, ignore, signal, TokenState, canceled, ignored, new_token, poll,
}

-- What the polls of a token answer when it is polled at these uses of the handle.
unfoldable pub polls : List HandleUse → TokenState → List Bool
polls [] t = []
polls (h ∷ hs) t = let now = poll (signal h) t in now.1 ∷ polls hs now.0

abbrev pub was_canceled : HandleUse → Bool
was_canceled kept = false
was_canceled ignore = false
was_canceled cancel = true

-- A handle is kept for some polls, and then used once and for all: it is gone.
abbrev pub uses : ℕ → HandleUse → ℕ → List HandleUse
uses zero last zero = []
uses zero last (suc m) = last ∷ uses zero last m
uses (suc n) last m = kept ∷ uses n last m

abbrev pub answers : ℕ → Bool → ℕ → List Bool
answers zero b zero = []
answers zero b (suc m) = b ∷ answers zero b m
answers (suc n) b m = false ∷ answers n b m

polls_ignored : (last : HandleUse) (m : ℕ) → polls (uses zero last m) ignored ≡ answers zero false m
unfolding polls poll
polls_ignored last zero = refl
polls_ignored last (suc m) = ap (◌∷◌ false) (polls_ignored last m)

polls_canceled :
    (last : HandleUse) (m : ℕ) → polls (uses zero last m) canceled ≡ answers zero true m
unfolding polls poll
polls_canceled last zero = refl
polls_canceled last (suc m) = ap (◌∷◌ true) (polls_canceled last m)

-- A new token that is polled any number of times while its handle is kept, and then any number of
-- times behind the use of the handle, is never ready before it; behind it, it is ready at each poll
-- when the handle was cancelled or dropped, and at none when it was ignored or is still kept.
pub polls-uses :
    (n m : ℕ) (last : HandleUse) → polls (uses n last m) new_token ≡ answers n (was_canceled last) m
unfolding polls poll signal new_token
polls-uses zero zero last = refl
polls-uses zero (suc m) kept = ap (◌∷◌ false) (polls-uses zero m kept)
polls-uses zero (suc m) cancel = ap (◌∷◌ true) (polls_canceled cancel m)
polls-uses zero (suc m) ignore = ap (◌∷◌ false) (polls_ignored ignore m)
polls-uses (suc n) m last = ap (◌∷◌ false) (polls-uses n m last)
