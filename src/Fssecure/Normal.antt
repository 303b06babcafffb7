-- ===== src/Fssecure/Normal.antt =====
-- `Relative` returns a normal form.
use atum.Base.{
  ℕ, Bool, true, false, ◌&&◌, ◌||◌, not, none, some, List, [], ◌∷◌, ◌++◌, append_assoc, append-nil,
  reverse, Text, text, str_eq, str_eq_iff, has_prefix, has_slash, ◌==◌, if◌then◌else◌, if_cases,
  ◌≡◌, refl, sym, ◌∙◌, ap, subst, ◌⊎◌, inl, inr, arith,
}
use mathlib.Core.List.{reverse_aux}
use atum.Fssecure.{split, dot, dotdot, up, clean_step, clean_all, join, is_abs, clean, relative}

-- A component that stands for itself.
abbrev plain : Text → Bool
plain w = not (str_eq w []) && not (str_eq w dot) && not (str_eq w dotdot) && not (has_slash w)

All : (Text → Bool) → List Text → Type 0
All p [] = Unit
All p (w ∷ ws) = (p w ≡ true) × All p ws

abbrev slashless : Text → Bool
slashless w = not (has_slash w)

-- The components have no slash.
split-All : (s : Text) → All slashless (split s)
unfolding split All has_slash
split-All [] = (refl, tt)
split-All (c ∷ s) = split_cons c (split s) (split-All s)
  where
    split_cons :
        (c : ℕ) (rest : List Text)
        → All slashless rest
        → All slashless (
            if c == b'/'
            then [] ∷ rest
            else elim rest [ [] ↦ (c ∷ []) ∷ [] | w ∷ ws ↦ (c ∷ w) ∷ ws ])
    split_cons c [] h =
        if_cases (All slashless) (c == b'/') (λ _. (refl, tt)) (λ n. (ground (arith, n), tt))
    split_cons c (w ∷ ws) h =
        if_cases (All slashless) (c == b'/') (λ _. (refl, h)) (λ n. (ground (arith, n, h.0), h.1))

-- What is kept, the last component first: plain ones after some `..`.
IsClimb : List Text → Type 0
IsClimb [] = Unit
IsClimb (w ∷ ws) = (w ≡ dotdot) × IsClimb ws

HasShape : List Text → Type 0
HasShape [] = Unit
HasShape (w ∷ ws) = ((plain w ≡ true) × HasShape ws) ⊎ ((w ≡ dotdot) × IsClimb ws)

up-HasShape : (kept : List Text) → HasShape kept → HasShape (up false kept)
unfolding up HasShape IsClimb
up-HasShape [] h = inr (refl, tt)
up-HasShape (v ∷ vs) (inl h) =
    if_cases HasShape (str_eq v dotdot) (λ t. absurd (ground (arith, t, h.0))) (λ _. h.1)
up-HasShape (v ∷ vs) (inr h) =
    if_cases HasShape (str_eq v dotdot) (λ t. inr (refl, h))
      (λ t. absurd (ground (arith, t, h.0, str_eq_iff v dotdot)))

clean_step-HasShape :
    (kept : List Text) (w : Text)
    → slashless w ≡ true
    → HasShape kept
    → HasShape (clean_step false kept w)
unfolding clean_step HasShape
clean_step-HasShape kept w s h =
    if_cases HasShape (str_eq w [] || str_eq w dot) (λ _. h)
      (λ n.
        if_cases HasShape (str_eq w dotdot) (λ _. up-HasShape kept h)
          (λ m. inl (ground (arith, s, n, m), h)))

clean_all-HasShape :
    (kept ws : List Text)
    → All slashless ws
    → HasShape kept
    → (k : List Text) × (clean_all false kept ws ≡ reverse k) × HasShape k
unfolding clean_all All
clean_all-HasShape kept [] a h = (kept, refl, h)
clean_all-HasShape kept (w ∷ ws) a h =
    clean_all-HasShape (clean_step false kept w) ws a.1 (clean_step-HasShape kept w a.0 h)

reverse_aux-append : {A : Type 0} (xs r : List A) → reverse_aux xs r ≡ reverse xs ++ r
reverse_aux-append [] r = refl
reverse_aux-append (x ∷ xs) r =
    reverse_aux-append xs (x ∷ r)
    ∙ sym (append_assoc (reverse xs) (x ∷ []) r)
    ∙ ap (λ l. l ++ r) (sym (reverse_aux-append xs (x ∷ [])))

reverse_cons : {A : Type 0} (x : A) (xs : List A) → reverse (x ∷ xs) ≡ reverse xs ++ (x ∷ [])
reverse_cons x xs = reverse_aux-append xs (x ∷ [])

All-append : (p : Text → Bool) (a b : List Text) → All p a → All p b → All p (a ++ b)
unfolding All
All-append p [] b h k = k
All-append p (w ∷ a) b h k = (h.0, All-append p a b h.1 k)

All-reverse : (p : Text → Bool) (a : List Text) → All p a → All p (reverse a)
unfolding All
All-reverse p [] h = tt
All-reverse p (w ∷ a) h =
    subst (All p) (sym (reverse_cons w a))
      (All-append p (reverse a) (w ∷ []) (All-reverse p a h.1) (h.0, tt))

-- The list begins with `..`.
Climbs : List Text → Type 0
Climbs l = (m : List Text) × (l ≡ dotdot ∷ m)

Climbs-append : (a b : List Text) → Climbs a → Climbs (a ++ b)
unfolding Climbs
Climbs-append a b h = (h.0 ++ b, ap (λ l. l ++ b) h.1)

IsClimb-Climbs : (w : Text) (ws : List Text) → w ≡ dotdot → IsClimb ws → Climbs (reverse (w ∷ ws))
unfolding IsClimb Climbs
IsClimb-Climbs w [] e h = ([], ap (λ v. v ∷ []) e)
IsClimb-Climbs w (v ∷ ws) e h =
    subst Climbs (sym (reverse_cons w (v ∷ ws)))
      (Climbs-append (reverse (v ∷ ws)) (w ∷ []) (IsClimb-Climbs v ws h.0 h.1))

HasShape-All : (k : List Text) → HasShape k → All plain k ⊎ Climbs (reverse k)
unfolding HasShape All
HasShape-All [] h = inl tt
HasShape-All (w ∷ ws) (inl h) = either (HasShape-All ws h.1)
  where
    either :
        All plain ws ⊎ Climbs (reverse ws)
        → ((plain w ≡ true) × All plain ws) ⊎ Climbs (reverse (w ∷ ws))
    either (inl a) = inl (h.0, a)
    either (inr c) =
        inr (subst Climbs (sym (reverse_cons w ws)) (Climbs-append (reverse ws) (w ∷ []) c))
HasShape-All (w ∷ ws) (inr h) = inr (IsClimb-Climbs w ws h.0 h.1)

-- Plain components are all kept.
clean_all-plain :
    (kept ws : List Text) → All plain ws → clean_all false kept ws ≡ reverse kept ++ ws
unfolding clean_all clean_step All
clean_all-plain kept [] h = sym (append-nil (reverse kept))
clean_all-plain kept (w ∷ ws) h =
    ap (λ k. clean_all false k ws) step
    ∙ clean_all-plain (w ∷ kept) ws h.1
    ∙ ap (λ l. l ++ ws) (reverse_cons w kept)
    ∙ append_assoc (reverse kept) (w ∷ []) ws
  where
    step : clean_step false kept w ≡ w ∷ kept
    step = ground (arith, h.0)

-- A word and what follows its slash.
split-word : (w : Text) → has_slash w ≡ false → split w ≡ w ∷ []
unfolding split has_slash
split-word [] h = refl
split-word (c ∷ w) h =
    ap (λ r. if c == b'/' then [] ∷ r else elim r [ [] ↦ (c ∷ []) ∷ [] | v ∷ vs ↦ (c ∷ v) ∷ vs ])
      (split-word w (ground (arith, h)))
    ∙ ground (arith, h)

split-append : (w s : Text) → has_slash w ≡ false → split (w ++ (b'/' ∷ s)) ≡ w ∷ split s
unfolding split has_slash
split-append [] s h = refl
split-append (c ∷ w) s h =
    ap (λ r. if c == b'/' then [] ∷ r else elim r [ [] ↦ (c ∷ []) ∷ [] | v ∷ vs ↦ (c ∷ v) ∷ vs ])
      (split-append w s (ground (arith, h)))
    ∙ ground (arith, h)

split-join : (w : Text) (ws : List Text) → All plain (w ∷ ws) → split (join (w ∷ ws)) ≡ w ∷ ws
unfolding join All
split-join w [] h = split-word w (ground (arith, h.0))
split-join w (v ∷ ws) h =
    split-append w (join (v ∷ ws)) (ground (arith, h.0)) ∙ ap (λ l. w ∷ l) (split-join v ws h.1)

is_abs-join : (w : Text) (ws : List Text) → plain w ≡ true → is_abs (join (w ∷ ws)) ≡ false
unfolding is_abs join has_slash str_eq
is_abs-join [] ws h = cc (h)
is_abs-join (c ∷ w) [] h = ground (arith, h)
is_abs-join (c ∷ w) (v ∷ ws) h = ground (arith, h)

join-nonempty : (w : Text) (ws : List Text) → plain w ≡ true → str_eq (join (w ∷ ws)) [] ≡ false
unfolding join str_eq
join-nonempty [] ws h = cc (h)
join-nonempty (c ∷ w) [] h = refl
join-nonempty (c ∷ w) (v ∷ ws) h = refl

clean-join :
    (w : Text) (ws : List Text) → All plain (w ∷ ws) → clean (join (w ∷ ws)) ≡ join (w ∷ ws)
unfolding clean All
clean-join w ws h =
    ap (λ b. finish b (clean_all b [] (split (join (w ∷ ws))))) (is_abs-join w ws h.0)
    ∙ ap (finish false)
        (ap (clean_all false []) (split-join w ws h) ∙ clean_all-plain [] (w ∷ ws) h)
  where
    finish : Bool → List Text → Text
    finish rooted words =
        if rooted then b'/' ∷ join words else elim words [ [] ↦ dot | w ∷ ws ↦ join (w ∷ ws) ]

-- What `Relative` refuses in a cleaned path.
record IsBelow (c : Text) : Type 0 where
  not_rooted : is_abs c ≡ false
  not_dot : str_eq c dot ≡ false
  not_dotdot : str_eq c dotdot ≡ false
  no_climb : has_prefix c (text "../") ≡ false

relative-IsBelow : (path c : Text) → relative path ≡ some c → (c ≡ clean path) × IsBelow c
unfolding relative
relative-IsBelow path c h = (
  same,
  record {
    not_rooted = rw same (ground (arith, h));
    not_dot = rw same (ground (arith, h));
    not_dotdot = rw same (ground (arith, h));
    no_climb = rw same (ground (arith, h));
  },
)
  where
    same : c ≡ clean path
    same = ground (arith, h)

-- One or more plain components, with slashes between them.
pub IsNormal : Text → Type 0
IsNormal c = (w : Text) × (ws : List Text) × (c ≡ join (w ∷ ws)) × All plain (w ∷ ws)

joined : Bool → List Text → Text
joined rooted words =
    if rooted then b'/' ∷ join words else elim words [ [] ↦ dot | w ∷ ws ↦ join (w ∷ ws) ]

climbs_refused : (m : List Text) → IsBelow (joined false (dotdot ∷ m)) → ⊥
unfolding joined join str_eq has_prefix
climbs_refused [] b = cc (b.not_dotdot)
climbs_refused (v ∷ vs) b = cc (b.no_climb)

IsBelow-words :
    (words : List Text)
    → IsBelow (joined false words)
    → All plain words ⊎ Climbs words
    → IsNormal (joined false words)
unfolding joined join Climbs IsNormal All str_eq
IsBelow-words [] b a = cc (b.not_dot)
IsBelow-words (w ∷ ws) b (inl a) = (w, ws, refl, a)
IsBelow-words (w ∷ ws) b (inr c) =
    absurd (climbs_refused c.0 (subst (λ l. IsBelow (joined false l)) c.1 b))

clean-joined :
    (path : Text) → clean path ≡ joined (is_abs path) (clean_all (is_abs path) [] (split path))
unfolding clean joined
clean-joined path = refl

rooted_refused : (words : List Text) → IsBelow (joined true words) → ⊥
unfolding joined is_abs
rooted_refused words b = cc (b.not_rooted)

cleaned : (path : Text) (b : Bool) → is_abs path ≡ b → IsBelow (clean path) → IsNormal (clean path)
unfolding HasShape
cleaned path true e b = absurd (
    rooted_refused (clean_all true [] (split path))
      (subst IsBelow (clean-joined path ∙ ap (λ b. joined b (clean_all b [] (split path))) e) b))
cleaned path false e b =
    let (k, f, h) = clean_all-HasShape [] (split path) (split-All path) empty in
    let same : clean path ≡ joined false (reverse k) =
      clean-joined path
      ∙ ap (λ b. joined b (clean_all b [] (split path))) e
      ∙ ap (joined false) f in
    subst IsNormal (sym same)
      (IsBelow-words (reverse k) (subst IsBelow same b) (kept k (HasShape-All k h)))
  where
    empty : HasShape []
    empty = tt

    kept :
        (k : List Text)
        → All plain k ⊎ Climbs (reverse k)
        → All plain (reverse k) ⊎ Climbs (reverse k)
    kept k (inl a) = inl (All-reverse plain k a)
    kept k (inr c) = inr c

accepted :
    (c x : Text)
    → x ≡ c
    → str_eq c [] ≡ false
    → IsBelow c
    → (if str_eq c [] || is_abs x || str_eq x dot || str_eq x dotdot || has_prefix x (text "../")
        then none
        else some x)
      ≡ some c
accepted c x e n b =
    subst
      (λ x.
        (if str_eq c [] || is_abs x || str_eq x dot || str_eq x dotdot || has_prefix x (text "../")
          then none
          else some x)
        ≡ some c)
      (sym e) (ground (arith, n, b.not_rooted, b.not_dot, b.not_dotdot, b.no_climb))

relative-normal : (c : Text) → IsNormal c → IsBelow c → relative c ≡ some c
unfolding relative IsNormal All
relative-normal c (w, ws, e, a) b =
    accepted c (clean c) (ap clean e ∙ clean-join w ws a ∙ sym e)
      (ap (λ c. str_eq c []) e ∙ join-nonempty w ws a.0) b

-- A managed path that is accepted is a row of plain components, so that it stays below the root of the
-- project, and is accepted again as it is.
pub relative-relative :
    (path c : Text) → relative path ≡ some c → IsNormal c × (relative c ≡ some c)
relative-relative path c h =
    let (same, b) = relative-IsBelow path c h in
    let n : IsNormal c =
      subst IsNormal (sym same) (cleaned path (is_abs path) refl (subst IsBelow same b)) in
    (n, relative-normal c n b)
