-- ===== src/Multiplexer/Shutdown/Drained.antt =====
-- A source of bytes that is at its end stays there.
use mipt_informatics.Base.{ℕ, zero, suc, ◌≡◌, refl, sym, ◌∙◌, List, [], ◌∷◌, ◌++◌}
use mipt_informatics.Multiplexer.{
  BufferEvent, Child, reading, writing, exited, failed, Parent, System, update,
}
use mipt_informatics.Multiplexer.Actions.{
  source, set_source, write_out, read_in, close_ends, fail_write, fail_read,
}
use mipt_informatics.Multiplexer.Steps.{
  HasEnded, IsDrained, Step, poll, poll_undefined, poll_none, poll_error, skip_write, write,
  write_error, skip_read, read, read_eof, read_error, all_served, close, close_error, all_closed,
  wait_last, wait_error, sigchld, child_read, child_eof, child_write, child_written,
  child_read_error, child_write_error,
}
use mipt_informatics.Multiplexer.Flow.Slices.{update_ind, update_ind_2}
use mipt_informatics.Multiplexer.Shutdown.Events.{AllFinal}

append-eq-nil : (xs ys : List ℕ) → xs ++ ys ≡ [] → ys ≡ []
append-eq-nil [] ys e = e
append-eq-nil (x ∷ xs) ys e = cc

-- From `s` on every source that is at its end stays at its end.
abbrev pub Keeps : System → System → Type 0
Keeps s t = (i : ℕ) → IsDrained s i → IsDrained t i

pub AllFinal-Keeps :
    (s t : System) (bes : List BufferEvent) → Keeps s t → AllFinal s bes → AllFinal t bes
AllFinal-Keeps s t [] k f = tt
AllFinal-Keeps s t (be ∷ bes) k (f, g) = (λ c. k be.buffer (f c), AllFinal-Keeps s t bes k g)

pub ended_update :
    (s : System) (i : ℕ) (c : Child)
    → (HasEnded (s.children i) → HasEnded c)
    → (j : ℕ) → HasEnded (s.children j)
    → HasEnded (update s.children i c j)
ended_update s i c h =
    update_ind (λ j d. HasEnded (s.children j) → HasEnded d) s.children i c (λ j e. e) h

child-Keeps :
    (s : System) (i : ℕ) (c : Child) (to : ℕ → List ℕ)
    → (HasEnded (s.children i) → HasEnded c)
    → Keeps s (record s { children = update s.children i c; to_child = to })
child-Keeps s i c to h zero d = d
child-Keeps s i c to h (suc j) (e, f) = (e, ended_update s i c h j f)

child_write-Keeps :
    (s : System) (i : ℕ) (old left from : List ℕ)
    → s.children i ≡ writing old
    → Keeps s (record s {
      children = update s.children i (writing left);
      from_child = update s.from_child i from;
    })
child_write-Keeps s i old left from w zero d = d
child_write-Keeps s i old left from w (suc j) d =
    update_ind_2 (λ k c l. (s.from_child k ≡ []) × HasEnded (s.children k) → (l ≡ []) × HasEnded c)
      s.children s.from_child i (writing left) from (λ k d. d) (rw w (λ d. absurd d.1)) j d

-- a step that changes none of the sources
same-Keeps :
    (s t : System)
    → t.rest ≡ s.rest
    → t.from_child ≡ s.from_child
    → t.children ≡ s.children
    → Keeps s t
same-Keeps s t r f c zero d = r ∙ d
same-Keeps s t r f c (suc i) (d, e) = (rw f d, rw c e)

read-Keeps :
    (s : System) (j : ℕ) (bytes left : List ℕ) (p : Parent)
    → source s j ≡ bytes ++ left
    → Keeps s (read_in j bytes left p s)
unfolding read_in set_source source
read-Keeps s zero bytes left p e zero d = append-eq-nil bytes left (sym e ∙ d)
read-Keeps s zero bytes left p e (suc i) d = d
read-Keeps s (suc j) bytes left p e zero d = d
read-Keeps s (suc j) bytes left p e (suc i) (d, h) = (
  update_ind (λ k l. s.from_child k ≡ [] → l ≡ []) s.from_child j left (λ k q. q)
      (λ q. append-eq-nil bytes left (sym e ∙ q)) i d,
  h,
)

module _ (n : ℕ) (child_rand : ℕ → ℕ) where
  pub Step-Keeps : {s t : System} → Step n child_rand s t → Keeps s t
  unfolding write_out close_ends fail_write fail_read
  Step-Keeps {s} {t} (poll es so p l m q) = same-Keeps s t refl refl refl
  Step-Keeps {s} {t} (poll_undefined es e_1 e_2 p l m i j a b) = same-Keeps s t refl refl refl
  Step-Keeps {s} {t} (poll_none p) = same-Keeps s t refl refl refl
  Step-Keeps {s} {t} (poll_error p) = same-Keeps s t refl refl refl
  Step-Keeps {s} {t} (skip_write be todo done p c) = same-Keeps s t refl refl refl
  Step-Keeps {s} {t} (write be todo done k p c le) = same-Keeps s t refl refl refl
  Step-Keeps {s} {t} (write_error be todo done p c) = same-Keeps s t refl refl refl
  Step-Keeps {s} {t} (skip_read be todo done p c) = same-Keeps s t refl refl refl
  Step-Keeps {s} {t} (read be todo done bytes left p c e ne le) =
      read-Keeps s be.buffer bytes left _ e
  Step-Keeps {s} {t} (read_eof be todo done p c d) =
      read-Keeps s be.buffer [] (source s be.buffer) _ refl
  Step-Keeps {s} {t} (read_error be todo done p c) = same-Keeps s t refl refl refl
  Step-Keeps {s} {t} (all_served done p) = same-Keeps s t refl refl refl
  Step-Keeps {s} {t} (close be todo p) = same-Keeps s t refl refl refl
  Step-Keeps {s} {t} (close_error be todo p c) = same-Keeps s t refl refl refl
  Step-Keeps {s} {t} (all_closed p) = same-Keeps s t refl refl refl
  Step-Keeps {s} {t} (wait_last p h) = same-Keeps s t refl refl refl
  Step-Keeps {s} {t} (wait_error p) = same-Keeps s t refl refl refl
  Step-Keeps {s} {t} (sigchld i lt h a e) = same-Keeps s t refl refl refl
  Step-Keeps {s} (child_read i bytes left lt r e ne le) =
      child-Keeps s i (writing bytes) (update s.to_child i left) (rw r (λ h. h))
  Step-Keeps {s} (child_eof i lt r e w) = child-Keeps s i exited s.to_child (rw r (λ h. tt))
  Step-Keeps {s} {t} (child_write i bytes left lt w) =
      child_write-Keeps s i (bytes ++ left) left _ w
  Step-Keeps {s} (child_written i lt w) = child-Keeps s i reading s.to_child (rw w (λ h. h))
  Step-Keeps {s} (child_read_error i lt r) = child-Keeps s i (failed []) s.to_child (λ h. tt)
  Step-Keeps {s} (child_write_error i left lt w) =
      child-Keeps s i (failed left) s.to_child (λ h. tt)
