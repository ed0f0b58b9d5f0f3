-- ===== src/Runtime/Preflight.antt =====
-- runtime/preflight.py: which invocations of a line's tree receive piped input.
pub mod Input
use doomtp_bot.Prelude.{List, [], ◌∷◌, ◌++◌, map}
use doomtp_bot.Prelude.Int.{ℤ}
use doomtp_bot.Runtime.Ast.{
  Node, command, pipe, and_, or_, group, store, if_then, if_else, Invocation, index_in,
}

-- first_invocations
unfoldable pub first_invocations : Node → List Invocation
first_invocations (command inv) = inv ∷ []
first_invocations (pipe left right) = first_invocations left
first_invocations (and_ left right) = first_invocations left
first_invocations (or_ left right) = first_invocations left
first_invocations (group inner) = first_invocations inner
first_invocations (store inner target append) = first_invocations inner
first_invocations (if_then cond then_) = first_invocations then_
first_invocations (if_else cond then_ else_) = first_invocations then_ ++ first_invocations else_

-- stdin_receivers, the set as a list
unfoldable pub stdin_receivers : Node → List ℤ
stdin_receivers (command inv) = []
stdin_receivers (pipe left right) =
    map index_in (first_invocations right) ++ (stdin_receivers left ++ stdin_receivers right)
stdin_receivers (and_ left right) = stdin_receivers left ++ stdin_receivers right
stdin_receivers (or_ left right) = stdin_receivers left ++ stdin_receivers right
stdin_receivers (group inner) = stdin_receivers inner
stdin_receivers (store inner target append) = stdin_receivers inner
stdin_receivers (if_then cond then_) = stdin_receivers then_
stdin_receivers (if_else cond then_ else_) = stdin_receivers then_ ++ stdin_receivers else_
