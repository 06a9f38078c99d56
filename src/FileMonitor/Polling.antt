-- ===== src/FileMonitor/Polling.antt =====
-- Polling notifies a watch once for each change of the modification time that a round sees.
use subscription_manager.Base.{
  ◌≡◌, refl, ap, ◌∙◌, ℕ, zero, suc, ◌+◌, String, Option, List, [], ◌∷◌, ◌++◌, map, ◌==◌, nat_eq,
  if◌then◌else◌, arith,
}
use subscription_manager.FileMonitor.Times.{time_eq}
use subscription_manager.FileMonitor.{
  DirectoryWatch, present, notify, try_enable, update_temporary_disabled_watcher, check_timestamp,
  update, first_seen, start, loop,
}

-- what the rounds of one watch do to it
abbrev alone : List ((String → Option ℕ) × ℕ) → DirectoryWatch → DirectoryWatch
alone [] w = w
alone ((mtime, now) ∷ rounds) w = alone rounds (try_enable now (check_timestamp mtime w))

append_nil : {A : Type 0} (xs : List A) → xs ≡ xs ++ []
append_nil [] = refl
append_nil (x ∷ xs) = ap (λ zs. x ∷ zs) (append_nil xs)

map-id : {A : Type 0} (xs : List A) → xs ≡ map (λ x. x) xs
map-id [] = refl
map-id (x ∷ xs) = ap (λ ys. x ∷ ys) (map-id xs)

pub map-map :
    {A B C : Type 0} (f : B → C) (g : A → B) (xs : List A)
    → map f (map g xs) ≡ map (λ x. f (g x)) xs
map-map f g [] = refl
map-map f g (x ∷ xs) = ap (λ ys. f (g x) ∷ ys) (map-map f g xs)

loop-alone :
    (rounds : List ((String → Option ℕ) × ℕ)) (ws : List DirectoryWatch)
    → loop rounds ws ≡ map (alone rounds) ws
unfolding loop update
loop-alone [] ws = map-id ws
loop-alone ((mtime, now) ∷ rounds) ws =
    loop-alone rounds (map (try_enable now) (map (check_timestamp mtime) ws))
    ∙ ap (map (alone rounds)) (map-map (try_enable now) (check_timestamp mtime) ws)
    ∙ map-map (alone rounds) (λ w. try_enable now (check_timestamp mtime w)) ws

-- the calls of the callbacks for a number of notifications
abbrev pub times {ℓ} : {A : Type ℓ} → ℕ → List A → List A
times zero xs = []
times (suc n) xs = xs ++ times n xs

-- how often the modification time of a path differs from the one before
abbrev pub changes : String → Option ℕ → List ((String → Option ℕ) × ℕ) → ℕ
changes path t [] = 0
changes path t ((mtime, now) ∷ rounds) =
    (if t == mtime path then 0 else 1) + changes path (mtime path) rounds

append_assoc : {A : Type 0} (xs ys zs : List A) → (xs ++ ys) ++ zs ≡ xs ++ (ys ++ zs)
append_assoc [] ys zs = refl
append_assoc (x ∷ xs) ys zs = ap (λ us. x ∷ us) (append_assoc xs ys zs)

zero_plus : (n : ℕ) → n ≡ 0 + n
zero_plus n = omega arith

suc_plus : (m n : ℕ) → suc (m + n) ≡ suc m + n
suc_plus m n = omega arith

times-add : {A : Type 0} (m n : ℕ) (xs : List A) → times m xs ++ times n xs ≡ times (m + n) xs
times-add zero n xs = ap (λ k. times k xs) (zero_plus n)
times-add (suc m) n xs =
    append_assoc xs (times m xs) (times n xs)
    ∙ ap (λ ys. xs ++ ys) (times-add m n xs)
    ∙ ap (λ k. times k xs) (suc_plus m n)

pub map_cong :
    {A B : Type 0} {f g : A → B} → ((x : A) → f x ≡ g x) → (xs : List A) → map f xs ≡ map g xs
map_cong h [] = refl
map_cong h (x ∷ xs) = λ i. h x i ∷ map_cong h xs i

try_enable-calls :
    (now : ℕ) (w : DirectoryWatch)
    → let v = try_enable now w in
      (v.calls ≡ w.calls)
      × (v.path ≡ w.path)
      × (v.callbacks ≡ w.callbacks)
      × (v.timestamp ≡ w.timestamp)
unfolding try_enable update_temporary_disabled_watcher
try_enable-calls now w = ground arith

check-calls :
    (mtime : String → Option ℕ) (w : DirectoryWatch)
    → let v = check_timestamp mtime w in
      (v.calls
        ≡ w.calls ++ times (if w.timestamp == mtime w.path then 0 else 1) (present w.callbacks))
      × (v.path ≡ w.path)
      × (v.callbacks ≡ w.callbacks)
      × (v.timestamp ≡ mtime w.path)
unfolding check_timestamp notify
check-calls mtime w = ground (arith, append_nil w.calls, append_nil (present w.callbacks))

alone-calls :
    (rounds : List ((String → Option ℕ) × ℕ)) (w : DirectoryWatch)
    → (alone rounds w).calls
      ≡ w.calls ++ times (changes w.path w.timestamp rounds) (present w.callbacks)
alone-calls [] w = append_nil w.calls
alone-calls ((mtime, now) ∷ rounds) w =
    let (c, p, b, t) = try_enable-calls now (check_timestamp mtime w) in
    let (c', p', b', t') = check-calls mtime w in
    let calls = c ∙ c' in
    let path = p ∙ p' in
    let callbacks = b ∙ b' in
    let seen = t ∙ t' in
    alone-calls rounds (try_enable now (check_timestamp mtime w))
    ∙ (λ i. calls i ++ times (changes (path i) (seen i) rounds) (present (callbacks i)))
    ∙ append_assoc w.calls
        (times (if w.timestamp == mtime w.path then 0 else 1) (present w.callbacks))
        (times (changes w.path (mtime w.path) rounds) (present w.callbacks))
    ∙ ap (λ xs. w.calls ++ xs)
        (times-add (if w.timestamp == mtime w.path then 0 else 1)
          (changes w.path (mtime w.path) rounds) (present w.callbacks))

-- A polling watcher calls the callbacks of every watch, in their order, once for each round in which the
-- modification time differs from that of the round before, at first from that at the start of its loop.
pub loop-calls :
    (mtime : String → Option ℕ) (rounds : List ((String → Option ℕ) × ℕ)) (ws : List DirectoryWatch)
    → map (λ w. w.calls) (loop rounds (start mtime ws))
      ≡ map (λ w. w.calls ++ times (changes w.path (mtime w.path) rounds) (present w.callbacks)) ws
unfolding start
loop-calls mtime rounds ws =
    ap (map λ w. w.calls) (loop-alone rounds (map (first_seen mtime) ws))
    ∙ map-map (λ w. w.calls) (alone rounds) (map (first_seen mtime) ws)
    ∙ map-map (λ w. (alone rounds w).calls) (first_seen mtime) ws
    ∙ map_cong (λ w. alone-calls rounds (first_seen mtime w)) ws
