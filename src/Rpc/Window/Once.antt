-- ===== src/Rpc/Window/Once.antt =====
-- At most once: over any history of requests and replies of one client, no request is answered `new`
-- twice, so its handler runs at most once.
use cse_2014_undergrad.Prelude.{
  ℕ, ◌<◌, Bool, true, false, Option, some, List, [], ◌∷◌, ◌≡◌, ◌≢◌, ap, arith, if◌then◌else◌,
  Bool-cases, inl, inr, ◌>>=◌, All, All-map, sym, subst, ◌∙◌, some-inj, >>=-eq-some,
}
use cse_2014_undergrad.Rpc.Window.{
  ReplyT, RpcState, new, Checked, check_window, checkduplicate_and_update, add_reply,
}
use cse_2014_undergrad.Rpc.Window.Order.{IsSorted, check_window_lem}
use cse_2014_undergrad.Rpc.Window.Knows.{
  knows, knows-check_window, check_window-new, add_reply-xids, knows-xids, IsSorted-xids,
}

-- What reaches the window of one client: a request, with its `xid_rep`, or the reply to one.
pub data Call : Type 0 where
  request : ℕ → ℕ → Call
  reply : ℕ → ℕ → ℕ → Call

abbrev pub is_new : RpcState → Bool
is_new new = true
is_new _ = false

-- The requests that a history has answered `new`, in order; `none` if an assertion fails.
unfoldable pub run : List ReplyT → List Call → Option (List ℕ)
run w [] = some []
run w (request xid xid_rep ∷ cs) = do
  c ← checkduplicate_and_update w xid xid_rep
  ns ← run c.window cs
  some (if is_new c.stat then xid ∷ ns else ns)
run w (reply xid b sz ∷ cs) = do w' ← add_reply w xid b sz; run w' cs

abbrev pub Distinct : List ℕ → Type 0
Distinct [] = Unit {0}
Distinct (x ∷ xs) = All (λ y. y ≢ x) xs × Distinct xs

abbrev Fresh : List ReplyT → List ℕ → Type 0
Fresh w = All (λ x. knows w x ≡ false)

check_window-IsSorted :
    (w : List ReplyT) (xid xid_rep : ℕ)
    → IsSorted w
    → xid_rep < xid
    → IsSorted (check_window w xid xid_rep).window
unfolding check_window
check_window-IsSorted [] xid xid_rep a h = (h, tt)
check_window-IsSorted (r ∷ rs) xid xid_rep a h = (check_window_lem r rs xid xid_rep a h).1

Fresh-check :
    (w : List ReplyT) (xid xid_rep : ℕ) (ns : List ℕ)
    → xid_rep < xid
    → Fresh (check_window w xid xid_rep).window ns
    → Fresh w ns
Fresh-check w xid xid_rep ns h =
    All-map (λ x k. ground (arith, knows-check_window w xid xid_rep x h)) ns

checked :
    (w : List ReplyT) (xid xid_rep : ℕ) (c : Checked)
    → checkduplicate_and_update w xid xid_rep ≡ some c
    → (xid_rep < xid) × (check_window w xid xid_rep ≡ c)
unfolding checkduplicate_and_update
checked w xid xid_rep c e = ground arith

add_new :
    (w : List ReplyT) (xid xid_rep : ℕ) (ns : List ℕ)
    → IsSorted w
    → xid_rep < xid
    → let c = check_window w xid xid_rep in
      Distinct ns × Fresh c.window ns
      → let ms = (if is_new c.stat then xid ∷ ns else ns) in Distinct ms × Fresh w ms
add_new w xid xid_rep ns a h (d, f) = elim (Bool-cases (is_new (check_window w xid xid_rep).stat)) [
  | inl n ↦
      let (old, known) = check_window-new w xid xid_rep a h (ground arith) in
      rw n (
        (
          All-map (λ x k e. cc (k, known, ap (knows (check_window w xid xid_rep).window) e)) ns f,
          d,
        ),
        (old, Fresh-check w xid xid_rep ns h f),
      )
  | inr n ↦ rw n (d, Fresh-check w xid xid_rep ns h f)
]

pub run-Distinct :
    (cs : List Call) (w : List ReplyT) (ns : List ℕ)
    → IsSorted w
    → run w cs ≡ some ns
    → Distinct ns × Fresh w ns
unfolding run
run-Distinct [] w ns a e = subst (λ l. Distinct l × Fresh w l) (some-inj e) (tt, tt)
run-Distinct (request xid xid_rep ∷ cs) w ns a e =
    let (c, p, q) = >>=-eq-some (checkduplicate_and_update w xid xid_rep) _ e in
    let (ms, r, s) = >>=-eq-some (run c.window cs) _ q in
    let (h, same) = checked w xid xid_rep c p in
    subst (λ l. Distinct l × Fresh w l) (some-inj s)
      (subst
        (λ (d : Checked).
          let l = (if is_new d.stat then xid ∷ ms else ms) in Distinct l × Fresh w l)
        same
        (add_new w xid xid_rep ms a h (
          run-Distinct cs (check_window w xid xid_rep).window ms
            (check_window-IsSorted w xid xid_rep a h)
            (subst (λ (d : Checked). run d.window cs ≡ some ms) (sym same) r))))
run-Distinct (reply xid b sz ∷ cs) w ns a e =
    let (v, p, q) = >>=-eq-some (add_reply w xid b sz) _ e in
    let same = add_reply-xids w xid b sz v p in
    let (d, f) = run-Distinct cs v ns (IsSorted-xids v w same a) q in
    (d, All-map (λ x k. sym (knows-xids x v w same) ∙ k) ns f)

-- At most once: over any history of requests and replies of one client that starts with an empty
-- window and in which no assertion fails, no request is answered `new` twice.
pub at_most_once : (cs : List Call) (ns : List ℕ) → run [] cs ≡ some ns → Distinct ns
at_most_once cs ns e = (run-Distinct cs [] ns tt e).0
