-- ===== src/Lib.antt =====
-- Verification of programs of a course in computer science.
--
-- The repository holds small C programs, each complete in itself: stacks, lists, trees and hash
-- tables in course1-1, number formats and simulated hardware in course1-2, processes, signals and
-- threads in course2-1. What two programs share they share as copies of the same functions. The
-- library models the programs whose logic is more than a call of the system.
--
-- Base: the names that all modules share. Base/Int has signed integers over the native numbers,
-- Base/Lists the list functions, Base/Order the interface of ordered keys with its instance for
-- integers, Base/Fault the chains of reads that may go through NULL, Base/Run the runs that end in
-- a value, in a fault (a failed assert, abort, undefined arithmetic) or run out of fuel.
-- Base/Operators is a description of the operators of C on signed integers that the two calculators
-- are compared with.
--
-- SearchTree: the trees of course1-1/11-seminar-tree, course1-1/12-seminar-datacenter/data_tree_flat.c
-- and course1-1/13-ejudjement-day-2/tree.c. A pointer to a node is a tree, NULL is `null`; a
-- function that updates a tree returns the new one. SearchTree.antt has tree_add, tree_print,
-- tree_destroy, tree_print_leafs and the main of tree_2_sort_numbers.c; SearchTree/Breadth has
-- tree_breadth_first_search, SearchTree/Balance tree_get_height and the balance check,
-- SearchTree/Flat create_flat, over a parameter for qsort. SearchTree/Dictionary is
-- tree_6_dictionary.c, where the pointer into the tree is the list of turns to its node. The heights
-- are natural numbers and do not overflow for trees that fit into memory. The search and create_flat
-- run on fuel that they are given from the size of the tree and the length of the array.
--
-- Multiplexer: course2-1/seminar8/task.c, a parent that feeds a file through a chain of children
-- by epoll. The state has the parent, the children, the buffers and what the kernel holds in the
-- pipes and of the input file; a step is one system call of one process (Multiplexer/Steps), so
-- that every order of the processes is a sequence of steps. Multiplexer/Events has consume_flag,
-- the comparison and the loop that coalesces events into the child_nr elements of buffer_events, with
-- the overflow as an outcome; what qsort makes of the events is any order of them, and undefined
-- where the comparison contradicts itself;
-- Multiplexer/Actions the write, the read and the closing for one element of buffer_events. A call
-- that fails is a step to `died`, where main would kill all, with what the code does to begin and end
-- first; undefined behaviour is a step to `undefined`, behind which the parent does nothing; a pipe has no capacity, since epoll
-- only reports a pipe that has room; the bytes that a call moves are left open up to what it asks
-- for. Multiplexer/Flow is about the bytes under way, Multiplexer/Shutdown about the end of the
-- file and the case where the parent waits in vain, Multiplexer/Comparison about the comparison of
-- events, Multiplexer/Runs has sample runs, Multiplexer/Overflow is about the size of
-- buffer_events.
--
-- SharedMemory: course2-1/seminar6/sender.c and receiver.c with common.h, the two loops as a step
-- relation over the shared memory and the semaphores MEMORY and DATA. Each access to the memory
-- and each system call is a step, and a process may die before any of them; SharedMemory/Invariant
-- says who has the memory, SharedMemory/Flight what it holds, SharedMemory/Theorems what follows.
--
-- Matrices: course1-1/14-seminar-line-age/matrices.c, the product of matrices that stand row by row in
-- arrays. A loop is a recursion on the passes done, and a product or sum that is no long is a fault.
-- Matrices/Sums has the same loops on integers of any size.
--
-- Ring: the ring lists of course1-1/10-seminar-lists/list_3.c, whose nodes stand in a store of next,
-- prev and value; malloc is the address of a fresh node. Walks run on fuel, a round for each node
-- and one more.
--
-- Sorting: course1-1/12-seminar-datacenter/data_slist_sort.c on the list of the values. Its loop runs on a
-- round of fuel for each node.
--
-- Stack: the array stack of course1-1/9-seminar-stack, with the doubling of its size and the limit of
-- int; malloc and realloc succeed. Stack/Brackets is stack_skobki.c, Stack/Postfix is
-- stack_postfix.c over the tokens that scanf matches, numbers without a sign. The doubling loop runs on fuel; 31 rounds are
-- enough for an int.
--
-- HashTable: course1-1/12-seminar-datacenter/data_hash.c. A bucket is the list of its objects with
-- the allocated size, a pointer to an object a bucket and an index. The loop that raises a negative
-- hash runs on fuel; 2 ^ 31 / 100003 + 2 rounds are enough for an int.
--
-- Database: course1-1/12-seminar-datacenter/database.c. A pool is the list of its cells with the
-- allocated size, a pointer into an array an index. Database.antt has the pool and the operations of a
-- hash table, Database/Session the array of the two tables and the commands of main; Database/Bag is
-- the abstract view, a bag of pairs. The two loops of hash_get_bucket make one round at most and run
-- on two rounds of fuel.
--
-- Numbers/Setun: course1-2/1-number5/setun.c on two words of characters. Its two loops over a sum
-- make one round at most and run on two rounds of fuel. The block that is printed has no NUL; what
-- stands in memory behind it is a parameter.
--
-- Numbers/Hexen: course1-2/1-number5/hexen.c on a word of characters.
--
-- Numbers/Rome: course1-2/1-number5/rome2arabic.c on a word of characters.
--
-- Cpu: course1-2/3-neo-at-the-architect/1-cpu.c on the list of the numbers of its input. Its loops
-- run on fuel: a round of the main loop takes a number of the input, and 2 ^ 23 + 3 rounds bring
-- every int into the range of a byte.
--
-- Assembly: course1-2/3-neo-at-the-architect/7-syntax_arm.c. Assembly/Buffer is the text and the removal
-- of its literals, Assembly/Words the vector and strtok_r, Assembly/Checks the checks, Assembly/Report
-- main with what it prints. A pointer to a word is the memory from there on, with a parameter for
-- what stands behind the word. The loops over the text run on a round of fuel for each character and
-- one more. The loops over the words read the cell behind the last one, which is a fault where the
-- vector has no such cell; Assembly/Words/Growth says when.
--
-- Parser: course1-1/9-seminar-stack/024.c. The lexer keeps the rest of the input and the lexem; the
-- parsers are functions of it. Parser/Grammar has the expressions with their texts and values, Parser/Arithmetic the operators.
-- parse_expression runs on two rounds of fuel more than the input has characters, as each nesting and
-- each round of its loop takes one.
--
-- BitChannel: course2-1/seminar7/signal.c. The two processes alternate, so that their loops are
-- composed round by round. The calls of kill and sigwait and the receiver's write succeed; a failing
-- read is modelled.
--
-- Mpmc: course2-1/__non_canonical/For575/mpmc/mpmc.c. The threads interleave by a step relation; a
-- thread that waits on a condition variable may wake whenever the mutex is free, so that the
-- theorems hold for all signals and for spurious wakeups. The threads' calls of the pthread library
-- succeed; an interrupted sleep of a consumer is modelled.
--
-- Not modelled: programs that only call the system or the terminal, floating point, programs in C++
-- and assembler, and the parts of the modelled programs that parse the command line, fork and free.
pub mod Base
pub mod Assembly
pub mod BitChannel
pub mod Cpu
pub mod Database
pub mod HashTable
pub mod Matrices
pub mod Mpmc
pub mod Multiplexer
pub mod Numbers
pub mod Parser
pub mod Ring
pub mod SearchTree
pub mod SharedMemory
pub mod Sorting
pub mod Stack
