-- ===== src/Semantics/FrontEnd/Ready.antt =====
-- What the code generator may rely on: the function that comes out of the passes of src/Semantics.cpp.
use d_gen.Prelude.{◌≡◌, refl, sym, ◌∙◌, subst, ◌⊎◌, inl, inr, Option, none, List, [], ◌∷◌}
use d_gen.Errors.{Err, ok, err}
use d_gen.Errors.Ends.{Ends, returns, Ends-bind, Ends-map, Ends-cases, Ends-eq, Ends-both}
use d_gen.Ast.{Symbol, DefNode, FunctionNode}
use d_gen.Semantics.Loops.{connect_loops, eliminate_body, eliminate_unreachable_code}
use d_gen.Semantics.Loops.Connect.{Connected, connect_body-Ends}
use d_gen.Semantics.Loops.Trim.{Trimmed, eliminate_body_exact}
use d_gen.Semantics.Resolve.{type_ast, start_names, add_inputs}
use d_gen.Semantics.Resolve.Scoped.{StmtsInScope, inputs_env, no_names, AreInputs}
use d_gen.Semantics.Resolve.Scoped.Sound.{type_ast-Ends}
use d_gen.Semantics.Check.{type_check, check_args, check_def, check_optional}
use d_gen.Semantics.Check.Typed.{StmtsTyped, Typed}
use d_gen.Semantics.Check.Typed.Sound.{type_check_iff}
use d_gen.Semantics.FrontEnd.{front_end}
use d_gen.Semantics.FrontEnd.Safe.{IsSafe, IsSafe-bind, check_stmts-IsSafe}
use d_gen.Semantics.FrontEnd.Keeps.{
  resolve_stmts-Same, eliminate_body-InScope, eliminate_body-Typed,
}

-- The parser gives no argument a right side.
abbrev pub NoDefaults : List DefNode → Type 0
NoDefaults [] = Unit
NoDefaults (d ∷ ds) = (d.rhs ≡ none) × NoDefaults ds

-- The tree fits the arguments of `f`: loops are connected, names follow lexical scope, the typing
-- rules hold, and nothing stands behind a jump.
abbrev pub Ready : FunctionNode → FunctionNode × List (Option Symbol) → Type 0
Ready f (g, inputs) =
    AreInputs f.args inputs
    × Connected none g.body
    × StmtsInScope (inputs_env f.args inputs no_names) g.body
    × StmtsTyped f.ret_type g.body
    × Trimmed g.body

abbrev SameHead : FunctionNode → FunctionNode → Type 0
SameHead f g = (g.args ≡ f.args) × (g.ret_type ≡ f.ret_type)

connect_loops-Ends :
    (f : FunctionNode)
    → Ends
        (λ g. SameHead f g × Connected none (eliminate_body g.body))
        (λ _. Unit {0})
        ⊥
        (connect_loops f)
unfolding connect_loops
connect_loops-Ends f =
    Ends-bind (Ends-map (λ _ c. c) (λ _ _. tt) (connect_body-Ends none f.body))
      λ b c. returns ((refl, refl), c)

type_ast-Keeps :
    (f : FunctionNode)
    → Ends
        (λ (g, _).
          SameHead f g
          × (Connected none (eliminate_body f.body) → Connected none (eliminate_body g.body)))
        (λ _. Unit {0})
        (Unit {0})
        (type_ast f)
unfolding type_ast
type_ast-Keeps f =
    Ends-bind (resolve_stmts-Same f.body (add_inputs f.args start_names).1)
      λ _ k. returns ((refl, refl), k none)

check_args-IsSafe : (ds : List DefNode) → NoDefaults ds → IsSafe (check_args ds)
unfolding check_args check_def check_optional
check_args-IsSafe [] h = returns tt
check_args-IsSafe (d ∷ ds) (e, h) = rw (e, check_optional) (check_args-IsSafe ds h)

type_check-IsSafe :
    (f : FunctionNode) (inputs : List (Option Symbol))
    → NoDefaults f.args
    → StmtsInScope (inputs_env f.args inputs no_names) f.body
    → Ends (λ _. Typed f) (λ _. Unit {0}) ⊥ (type_check f)
unfolding type_check
type_check-IsSafe f inputs h scope =
    Ends-map (λ _ (_, e). (type_check_iff f).0 e) (λ _ _. tt)
      (Ends-eq (type_check f) (
        IsSafe-bind (check_stmts-IsSafe f.ret_type (inputs_env f.args inputs no_names) f.body scope)
          λ _. check_args-IsSafe f.args h))

front_end-Ends :
    (f : FunctionNode) → NoDefaults f.args → Ends (Ready f) (λ _. Unit {0}) ⊥ (front_end f)
unfolding front_end eliminate_unreachable_code
front_end-Ends f h = Ends-bind (connect_loops-Ends f) λ g ((ga, gr), c).
    Ends-bind (Ends-both (Ends-map (λ _ p. p) (λ _ _. tt) (type_ast-Ends g)) (type_ast-Keeps g))
      λ (k, inputs) ((are, scope), ((ka, kr), keep)).
        let scope_k =
          subst (λ ds. StmtsInScope (inputs_env ds inputs no_names) k.body) (sym ka) scope in
        Ends-bind (type_check-IsSafe k inputs (subst NoDefaults (sym (ka ∙ ga)) h) scope_k)
          λ _ (typed, _). returns (
            subst (λ ds. AreInputs ds inputs) ga are,
            keep c,
            subst (λ ds. StmtsInScope (inputs_env ds inputs no_names) (eliminate_body k.body)) ga
                (eliminate_body-InScope _ k.body scope),
            subst (λ t. StmtsTyped t (eliminate_body k.body)) (kr ∙ gr)
                (eliminate_body-Typed k.ret_type k.body typed),
            (eliminate_body_exact k.body).0,
          )

-- On a function as the parser makes it, whose arguments have no right sides, the passes never
-- crash: they throw a BuildError, or they return a function in which every jump is connected to the
-- innermost loop around it, every name has the symbol of lexical scope, the typing rules hold and
-- nothing stands behind a jump.
pub front_end-Ready :
    (f : FunctionNode)
    → NoDefaults f.args
    → ((r : FunctionNode × List (Option Symbol)) × (front_end f ≡ ok r) × Ready f r)
      ⊎ ((e : List Err) × (front_end f ≡ err e))
front_end-Ready f h = elim (Ends-cases (front_end f) (front_end-Ends f h)) [
  | inl r ↦ inl r
  | inr (inl (e, made, _)) ↦ inr (e, made)
  | inr (inr (c, made)) ↦ absurd c
]
