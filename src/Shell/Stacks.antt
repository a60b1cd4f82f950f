-- ===== src/Shell/Stacks.antt =====
-- The two stacks of the shell (src/main.cpp), and what holds of a run whenever it ends.
use vortex_db.Base.{
  ◌≡◌, ◌≢◌, refl, Bool, true, false, some, List, [], ◌∷◌, ◌==◌, All, if◌then◌else◌,
}
use vortex_db.Base.Words.{Bytes}
use vortex_db.Files.{Run, ok, indeterminate, ◌>>=◌}
use vortex_db.Text.{codes}
use vortex_db.Database.{Database}
use vortex_db.Shell.{Shell}

-- The name of a database: not empty, and without a slash.
abbrev pub IsName : Bytes → Type 0
IsName part = (part ≢ []) × All (λ c. (c == b'/') ≡ false) part

-- The stacks lead from the root down: each database above another is the one to which the other
-- resolved the name beside it.
pub data IsPath {D S : Type 0} (ops : Database D S) (root : D) : List D → List Bytes → Type 0 where
  top : IsPath ops root (root ∷ []) (codes "root" ∷ [])
  below :
      (d d' : D) (part : Bytes) (ds : List D) (ns : List Bytes) (s s' : S)
      → IsName part
      → ops.resolve_path d part s ≡ ok (some d', s')
      → IsPath ops root (d ∷ ds) ns
      → IsPath ops root (d' ∷ d ∷ ds) (part ∷ ns)

-- The value of the run has the property, if there is one.
abbrev pub Keeps : {A : Type 0} → (A → Type 0) → Run A → Type 0
Keeps {A = A} P r = (a : A) → r ≡ ok a → P a

from_ok : {A : Type 0} (P : A → Type 0) (a b : A) → P a → ◌≡◌ {A = Run A} (ok a) (ok b) → P b
from_ok P a b p e = let same : a ≡ b = cc e in rw same at p

pub ok-Keeps : {A : Type 0} (P : A → Type 0) (a : A) → P a → Keeps P (ok a)
ok-Keeps P a p b e = from_ok P a b p e

pub indeterminate-Keeps : {A : Type 0} (P : A → Type 0) → Keeps P indeterminate
indeterminate-Keeps P b e = absurd (cc e)

pub bind-Keeps :
    {A B : Type 0} (P : B → Type 0) (r : Run A) (f : A → Run B)
    → ((a : A) → r ≡ ok a → Keeps P (f a))
    → Keeps P (r >>= f)
bind-Keeps P (ok a) f next = next a refl
bind-Keeps P indeterminate f next = indeterminate-Keeps P

pub if-Keeps :
    {A : Type 0} (P : A → Type 0) (b : Bool) (r r' : Run A)
    → Keeps P r
    → Keeps P r'
    → Keeps P (if b then r else r')
if-Keeps P true r r' h h' = h
if-Keeps P false r r' h h' = h'

-- Where the shell stands, in the middle of `cd` and after a command.
abbrev pub Stands : {D S : Type 0} → Database D S → D → Shell D × S → Type 0
Stands ops root t = IsPath ops root t.0.path_stack t.0.name_stack

abbrev pub Prompts : {D S : Type 0} → Database D S → D → Bytes × Shell D × S → Type 0
Prompts ops root t = IsPath ops root t.1.path_stack t.1.name_stack
