-- ===== src/Runtime/Executor/Steady.antt =====
-- A run keeps its depth of `{!…}` and its ids, and never gets budget back, whatever its commands do.
use doomtp_bot.Prelude.{
  ℕ, ◌+◌, refl, ◌&&◌, Option, some, List, [], Text, leb, arith, inl, inr, Bool-cases, nat_eq,
  list_eq,
}
use doomtp_bot.Prelude.Int.{int_comparable}
use doomtp_bot.Runtime.Values.{Value, Fields, Python}
use doomtp_bot.Runtime.Result.{Result}
use doomtp_bot.Runtime.Ops.{Floats}
use doomtp_bot.Runtime.Ast.{Invocation}
use doomtp_bot.Runtime.Execution.{Run, Action, max_subst_depth}
use doomtp_bot.Runtime.Execution.Steady.{Kept, Kept-refl, IsSteady}
use doomtp_bot.Runtime.Bind.{Command}
use doomtp_bot.Runtime.Executor.{
  CustomTarget, Machine, look, claim, run_handler, noted, run_body, substitute,
}

module _ {ℓ} {W : Type ℓ} (py : Python) (fl : Floats) (json_size : Value → ℕ) (m : Machine W) where
  pub substitute-IsSteady :
      (inner : Action W Result) → IsSteady inner → IsSteady (substitute py fl json_size m inner)
  unfolding substitute
  substitute-IsSteady inner s = record { kept = go }
    where
      go : (run : Run W) → Kept run (substitute py fl json_size m inner run).0
      go run =
          let k = s.kept (record run { subst_depth = run.subst_depth + 1 }) in
          elim (Bool-cases (leb max_subst_depth run.subst_depth)) [
            | inl deep ↦ rw deep (Kept-refl run)
            | inr fine ↦ rw fine (omega (arith, k.0), k.1, k.2)
          ]

  pub run_body-IsSteady :
      (target : CustomTarget) (body : Action W Result)
      → IsSteady body
      → IsSteady (run_body py fl json_size m target body)
  unfolding run_body
  run_body-IsSteady target body s = record {
    kept = λ run. (
      (s.kept (record run {
        ids = record {
          chatter = run.ids.chatter;
          channel = run.ids.channel;
          publisher = some target.owner_id;
        };
        results = [];
        executed = [];
      })).0,
      refl,
      (s.kept (record run {
        ids = record {
          chatter = run.ids.chatter;
          channel = run.ids.channel;
          publisher = some target.owner_id;
        };
        results = [];
        executed = [];
      })).2,
    );
  }

  pub run_handler-Kept :
      (spec : Command) (name : Text) (values : List Text) (params : Fields)
      (prev stdin : Option Result) (run : Run W)
      → Kept run (run_handler py fl json_size m spec name values params prev stdin run).0
  unfolding run_handler
  run_handler-Kept spec name values params prev stdin run =
      elim (Bool-cases (spec.side_effects && m.dry_run)) [
        | inl dry ↦ rw dry (Kept-refl run)
        | inr acts ↦ elim (Bool-cases (spec.side_effects && m.is_cancelled run.world)) [
          | inl late ↦ rw (acts, late) (Kept-refl run)
          | inr fine ↦ rw (acts, fine) (Kept-refl run)
        ]
      ]

  pub claim-Kept : (spec : Command) (run : Run W) → Kept run (claim py fl json_size m spec run).0
  unfolding claim
  claim-Kept spec run = elim (Bool-cases m.dry_run) [
    | inl dry ↦ rw dry (Kept-refl run)
    | inr live ↦ rw live (Kept-refl run)
  ]

  pub noted-IsSteady : (inv : Invocation) (r : Result) → IsSteady (noted py fl json_size m inv r)
  noted-IsSteady inv r = record { kept = λ run. Kept-refl run }

  pub look-Kept : (spec : Command) (run : Run W) → Kept run (look py fl json_size m spec run).0
  unfolding look
  look-Kept spec run = Kept-refl run
