-- ===== src/Lib.antt =====
-- ai-dm: the rules and the game state of an AI dungeon master for the 5.2 SRD.
--
-- The program has a rules engine (src/ai_dm/rules), which computes on numbers and small records,
-- and a game state (src/ai_dm/game), which the rules change: combatants with their conditions, the
-- combat machine that gives them turns, and the clock. The combat machine calls the resets of the
-- combatants and the initiative rules; a combatant calls its condition tracker and keeps a
-- death-save track; the rests refill the pools of a combatant. A bridge to the virtual tabletop
-- Foundry (src/ai_dm/foundry) sends commands through a queue with a worker for each scope, runs
-- batches of them with a rollback, and keeps a registry of the ids and aliases of documents; the
-- batches read and change the registry.
--
-- Files, with the source that each of them models:
--   Rules/Damage         src/ai_dm/rules/damage.py (apply_modifiers, apply_damage, apply_healing,
--                        grant_temp_hp); a target is what `_get` and `_set` reach
--   Rules/DeathSaves     src/ai_dm/rules/death_saves.py (DeathSaveTrack, roll_death_save,
--                        damage_at_zero)
--   Rules/Currency       src/ai_dm/rules/currency.py (Coins, add, subtract), with Inventory.spend and
--                        Inventory.gain of src/ai_dm/game/combatant_state.py
--   Rules/Initiative     src/ai_dm/rules/initiative.py (roll_initiative, sort_order)
--   Rules/Rests          src/ai_dm/rules/rests.py (apply_short_rest, apply_long_rest), and in
--                        Rules/Rests/Progress its RestProgress and complete_rest
--   Rules/Concentration  src/ai_dm/rules/concentration.py (roll_save, start, break_, on_damage)
--   Rules/Exhaustion     src/ai_dm/rules/exhaustion.py
--   Rules/Sustenance     src/ai_dm/rules/sustenance.py (tick_starvation, tick_dehydration)
--   Game/Clock           src/ai_dm/game/clock.py (Clock)
--   Game/Resources       src/ai_dm/game/combatant_state.py (SpellSlot, ResourceUse, Nourishment, and the
--                        slot and resource methods of CombatantState)
--   Game/Condition       src/ai_dm/game/condition_instance.py (ConditionInstance, supersedes)
--   Game/Tracker         src/ai_dm/game/condition_tracker.py (ConditionTracker and the cascades)
--   Game/Combatant       src/ai_dm/game/combatant_state.py (CombatantState: resets, take_damage, heal,
--                        spend_legendary)
--   Game/Inventory       src/ai_dm/game/combatant_state.py (Inventory: drop, equip, unequip, attune,
--                        end_attunement); Game/Inventory/Giving has give, give_magic_item and
--                        _new_instance_id, Game/Inventory/Charges the charges and consumables,
--                        Game/Inventory/Dawn dawn_recharge and Game/Inventory/Calls series of calls
--   Game/Combat          src/ai_dm/game/combat_machine.py (CombatMachine); Game/Combat/State has the
--                        records of src/ai_dm/game/combat_state.py and the actions that calls are made
--                        of, Game/Combat/Order the order of play
--   Foundry/CommandQueue src/ai_dm/foundry/command_queue.py (SerialCommandQueue): `run` goes through a
--                        list of events, which are calls and steps of workers in any order
--   Foundry/Registry     src/ai_dm/foundry/registry.py (FoundryRegistry); its methods are in
--                        Foundry/Registry/Calls
--   Foundry/Commands     src/ai_dm/models/commands.py, and JSON
--   Foundry/Executor     src/ai_dm/foundry/batch_executor.py (CommandInverter) and
--                        src/ai_dm/foundry/results.py; Foundry/Executor/Batch has BatchExecutor,
--                        and Foundry/Executor/Sending a log of the commands sent
--   Prelude              shared names, lists, integers, dictionaries and text
-- A file beside a definition file, in the folder of its name, holds the lemmas and theorems on what
-- it is named for, and Examples runs at concrete inputs.
--
-- Python's int is the type ℤ of Prelude/Int, without bounds; `//` and `%` round down. A dict is an
-- association list in insertion order. `strip` and `lower` are modelled on ASCII text. Money is
-- counted in copper pieces, since every coin is worth a whole number of them; the floats of the
-- source agree with that up to about 10^10 coins of each kind. Objects that are changed in place
-- are passed and returned; a call of the combat machine is an action that gives back the machine
-- beside its result or its exception. The dice, the shuffle of ties, the ids of uuid4 and what the
-- roller gives for a save are arguments, which the theorems leave open; so are the answers of
-- Foundry, as a function on a world, and the order in which Python goes through a set. The loops of
-- the modelled code run over lists and are structural recursion. The search for a new instance id
-- is given as many attempts as there are stacks and one more, which is proved to be enough. The
-- worker loop of the command queue is a step.
--
-- Not modelled: logging; the sums of the inventory; the builders of CombatantState; the other
-- rules, which mostly look tables up; the client, relay, validator and reconciler of the Foundry
-- bridge; orchestration, persistence, campaigns, AI, audio and the application; the JavaScript
-- module; tools and tests.
pub mod Prelude
pub mod Rules
pub mod Game
pub mod Foundry
