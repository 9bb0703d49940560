-- ===== src/Tests/Failures.antt =====
-- A lookup that succeeds, and a creation with a kernel that refuses every call.
use se_l4cp_poc.Prelude.{List, ℕ, refl}
use se_l4cp_poc.Machine.State.{Env}
use se_l4cp_poc.Machine.Reasons.{Explained}
use se_l4cp_poc.Elf.{bytes_of, get_symbol}
use se_l4cp_poc.Elf.Symbols.{NoNul-of}
use se_l4cp_poc.Elf.Lookup.{Looked, get_symbol-Looked}
use se_l4cp_poc.Load.Reasons.{IsBadFile}
use se_l4cp_poc.Create.{pd_create}
use se_l4cp_poc.Create.Reasons.{pd_create-Explained}
use se_l4cp_poc.Tests.Elves.{demo_memory, demo_env, demo_world}

abbrev id_name : List ℕ
id_name = bytes_of "sel4cp_current_pd_id"

get_symbol-Looked_example :
    Looked demo_memory 0x1000 id_name demo_world (get_symbol 0x1000 id_name demo_env demo_world)
get_symbol-Looked_example =
    get_symbol-Looked demo_env demo_world 0x1000 id_name (NoNul-of id_name refl)

abbrev refusing_env : Env
refusing_env = record demo_env { kernel = λ trace call. 8 }

pd_create-Explained_example :
    Explained (IsBadFile demo_memory 0x1000) (pd_create 1 0x1000 refusing_env demo_world)
pd_create-Explained_example = pd_create-Explained refusing_env demo_world 1 0x1000
