-- ===== src/CommandLibrary.antt =====
-- framework/command/command_library.cpp: the library of commands that the framework compiles and loads. The types
-- of commands are numbers, since any number can be cast to the enum.
use privately_distributed_cl.Common.{ℕ, Option, none, some, ◌==◌, if◌then◌else◌}
use privately_distributed_cl.Factory.{Factory}

-- `enum CommandType`, which framework/framework/framework.hpp has too.
abbrev pub read : ℕ
read = 0

abbrev pub write : ℕ
write = 1

-- `ReadCommand` and `WriteCommand`. What their calls do is not in the source.
pub data Command : Type 0 where
  read_command write_command : Command

-- `createCommand`; `none` is null.
unfoldable pub create_command : ℕ → Option Command
create_command type =
    if type == read then some read_command else if type == write then some write_command else none

-- `Func`, which runs when the library is loaded: it takes the factory and registers nothing, since the two
-- calls of `Add` are commented out.
unfoldable pub func : {Base : Type 0} → Factory ℕ ℕ Base → Factory ℕ ℕ Base
func instance_ = instance_
